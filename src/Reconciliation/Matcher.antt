-- ===== src/Reconciliation/Matcher.antt =====
-- matcher.py: `find_candidates`.
mod Sort
pub mod Pairs
unfoldable pub use Sort.{Key, key_le, sort_by, IsSorted, IsAbove}
use tulip_accounting.Prelude.{
  ℕ, ◌+◌, ◌-◌, Bool, true, false, not, ◌||◌, String, Option, none, some, List, [], ◌∷◌, ◌++◌, ltb,
  leb, ◌==◌, max, min, if◌then◌else◌,
}
use tulip_accounting.Prelude.Results.{Error, Result, ok, err, raise_if, ◌>>◌, ◌>>=◌}
use tulip_accounting.Money.{Money, money_eq}
use tulip_accounting.Transactions.{Uuid, Date, Posting, Transaction, in_ledger}
use tulip_accounting.Reconciliation.Score.{Similarity}
use tulip_accounting.Reconciliation.Confidence.{
  describe_similarity, classify_confidence, CandidateMatch, check_candidate,
}
use tulip_accounting.Reconciliation.StatementLine.{StatementLine}

-- `MATCH_DATE_WINDOW`, in days
abbrev pub match_date_window : ℕ
match_date_window = 3

-- `abs((a - b).days)`
abbrev pub days_apart : Date → Date → ℕ
days_apart a b = max a b - min a b

-- The first posting on the account, where the inner loop breaks.
abbrev pub first_on : Uuid → List Posting → Option Posting
first_on account [] = none
first_on account (p ∷ ps) = if p.account_id == account then some p else first_on account ps

-- `tx.id in reconciled_transaction_ids`
abbrev pub is_in : Uuid → List Uuid → Bool
is_in id [] = false
is_in id (j ∷ js) = j == id || is_in id js

-- The posting by which a transaction is eligible, if it is.
abbrev pub eligible_posting : Uuid → List Uuid → Transaction → Option Posting
eligible_posting account reconciled tx =
    if not (in_ledger tx.status)
    then none
    else if is_in tx.id reconciled
    then none
    else first_on account tx.postings

unfoldable pub eligible : Uuid → List Uuid → List Transaction → List (Transaction × Posting)
eligible account reconciled [] = []
eligible account reconciled (tx ∷ txs) = elim (eligible_posting account reconciled tx) [
  | none ↦ eligible account reconciled txs
  | some p ↦ (tx, p) ∷ eligible account reconciled txs
]

module _ (s : Similarity) where
  -- The candidate that a line and a transaction make.
  abbrev pub candidate : StatementLine → Transaction → CandidateMatch s
  candidate line tx =
      let score = describe_similarity s line.description tx.description in
      record {
        statement_line_id = line.id;
        ledger_transaction_id = tx.id;
        match_amount = line.amount;
        confidence = classify_confidence s (days_apart line.posted_date tx.date) score;
        fuzzy_score = score;
      }

  -- Both `continue`s of the inner loop.
  abbrev pub is_skipped : StatementLine → Transaction × Posting → Bool
  is_skipped line (tx, p) =
      not (money_eq p.amount line.amount)
      || ltb match_date_window (days_apart line.posted_date tx.date)

  unfoldable pub match_line :
      StatementLine → List (Transaction × Posting) → Result (List (CandidateMatch s))
  unfolding check_candidate
  match_line line [] = ok []
  match_line line (e ∷ es) =
      let rest = match_line line es in
      if is_skipped line e
      then rest
      else do c ← check_candidate s (candidate line e.0); cs ← rest; ok (c ∷ cs)

  unfoldable pub match_lines :
      List StatementLine → List (Transaction × Posting) → Result (List (CandidateMatch s))
  unfolding match_line
  match_lines [] es = ok []
  match_lines (line ∷ lines) es = do
    own ← match_line line es
    others ← match_lines lines es
    ok (own ++ others)

  -- The sort key.
  abbrev pub pair_of : CandidateMatch s → Key
  pair_of c = (c.statement_line_id, c.ledger_transaction_id)

  -- `find_candidates`
  unfoldable pub find_candidates :
      List StatementLine → List Transaction → Uuid → List Uuid → Result (List (CandidateMatch s))
  unfolding match_lines eligible
  find_candidates lines txs account reconciled = do
    out ← match_lines lines (eligible account reconciled txs)
    ok (sort_by pair_of out)
