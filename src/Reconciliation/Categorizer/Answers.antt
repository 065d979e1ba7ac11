-- ===== src/Reconciliation/Categorizer/Answers.antt =====
-- categorizer.py: what a categorizer is asked and answers, and the default one. A confidence is a score
-- of the matcher's floats; an `async def` is the call that it awaits; the null categorizer deletes its
-- session, so the argument is left out.
use tulip_accounting.Prelude.{ℕ, ◌≡◌, refl, not, ◌&&◌, String, Option, none, List, [], ◌∷◌}
use tulip_accounting.Prelude.Results.{Error, Result, ok, raise_if, ◌>>◌, ◌>>=◌}
use tulip_accounting.Account.{is_blank}
use tulip_accounting.Transactions.{Uuid}
use tulip_accounting.Reconciliation.Score.{Similarity, IsOrdered}
use tulip_accounting.Reconciliation.StatementLine.{StatementLine}

-- The rules are opaque to this module: any type of them.
pub record HouseholdContext (Rule : Type 0) : Type 0 where
  pub household_id : Uuid
  pub account_whitelist : List Uuid
  pub existing_rules : List Rule
  pub acting_user_id : Option Uuid

module _ (s : Similarity) where
  open s use {Score, nought, one, le}

  pub record CategorizationResult : Type 0 where
    pub account_code : String
    pub confidence : Score

  -- `CategorizationResult.__post_init__`
  unfoldable pub check_result : CategorizationResult → Result CategorizationResult
  check_result r = do
    raise_if (is_blank r.account_code) Error.empty_account_code
    raise_if (not (le nought r.confidence && le r.confidence one)) Error.score_out_of_range
    ok r

  pub record CategorizationCandidate : Type 0 where
    pub account_code : String
    pub confidence : Score
    pub reasoning : Option String

  -- `CategorizationCandidate.__post_init__`
  unfoldable pub check_proposal : CategorizationCandidate → Result CategorizationCandidate
  check_proposal c = do
    raise_if (is_blank c.account_code) Error.empty_account_code
    raise_if (not (le nought c.confidence && le c.confidence one)) Error.score_out_of_range
    ok c

  -- `Categorizer`: the two calls that an implementation answers.
  pub record Categorizer (Rule : Type 0) : Type 0 where
    pub categorize : StatementLine → HouseholdContext Rule → Result CategorizationResult
    pub propose : StatementLine → HouseholdContext Rule → ℕ → Result (List CategorizationCandidate)

  -- `NullCategorizer.categorize`
  unfoldable pub null_categorize :
      {Rule : Type 0} → StatementLine → HouseholdContext Rule → Result CategorizationResult
  unfolding check_result
  null_categorize line household_context =
      check_result (record { account_code = "Imbalance:Unknown"; confidence = one })

  -- `NullCategorizer.propose`
  unfoldable pub null_propose :
      {Rule : Type 0}
      → StatementLine
      → HouseholdContext Rule
      → ℕ
      → Result (List CategorizationCandidate)
  unfolding check_proposal
  null_propose line household_context n = do
    c ←
        check_proposal
          (record { account_code = "Imbalance:Unknown"; confidence = one; reasoning = none })
    ok (c ∷ [])

  -- `NullCategorizer`
  abbrev pub null_categorizer : {Rule : Type 0} → Categorizer Rule
  null_categorizer = record { categorize = null_categorize; propose = null_propose }

module _ (s : Similarity) (laws : IsOrdered s) where
  -- The default categorizer never raises, and proposes one candidate: the account and the confidence
  -- that it categorizes the line with.
  pub null_propose-null_categorize :
      {Rule : Type 0} (line : StatementLine) (household_context : HouseholdContext Rule) (n : ℕ)
      → (r : CategorizationResult s) × ((null_categorizer s).categorize line household_context
          ≡ ok r)
        × ((null_categorizer s).propose line household_context n
            ≡ ok (
                record {
                  account_code = r.account_code;
                  confidence = r.confidence;
                  reasoning = none;
                }
                ∷ []))
  unfolding null_categorize null_propose is_blank
  null_propose-null_categorize line household_context n = (
    record { account_code = "Imbalance:Unknown"; confidence = s.one },
    rw (laws.nought-le-one, laws.le_refl s.one) refl,
    rw (laws.nought-le-one, laws.le_refl s.one) refl,
  )
