-- ===== src/Ai/RateLimit.antt =====
-- The rate limit over sequences of calls, each gated and then recorded.
use tulip_accounting.Prelude.{
  ℕ, suc, ◌+◌, ◌≤◌, ◌≡◌, inl, inr, arith, Bool, true, ◌&&◌, Option, none, List, [], ◌∷◌, ◌++◌, ◌==◌,
  leb, keep, length, All, if◌then◌else◌, Bool-cases,
}
use tulip_accounting.Prelude.Lists.{length-append}
use tulip_accounting.Decimal.{Decimal, nought, quantize}
use tulip_accounting.Transactions.{Uuid}
use tulip_accounting.Storage.Tables.{keep-append}
use tulip_accounting.Ai.Cost.{
  AiOutcome, Invocation, is_billable, same_actor, in_window, PreCallResult, approval, block,
  GatePolicy, check_rate_limit, enforce_pre_call,
}

-- One call: when the gate reads the clock, when the row is written, and how the provider answers; the cost
-- is recorded of an answer only.
pub record Attempt : Type 0 where
  pub now : ℕ
  pub written : ℕ
  pub failed : Bool
  pub cost : Decimal

abbrev pub outcome_of : Attempt → PreCallResult → AiOutcome
outcome_of a (approval provider model degraded) =
    if a.failed then AiOutcome.provider_error else AiOutcome.success
outcome_of a (block outcome) = outcome

abbrev pub cost_of : Attempt → PreCallResult → Decimal
cost_of a (approval provider model degraded) = if a.failed then nought else a.cost
cost_of a (block outcome) = nought

-- The calls that reached a provider between t and an hour after it.
abbrev pub reached : Uuid → Option Uuid → ℕ → Invocation → Bool
reached household_id user_id t i =
    i.household_id == household_id
    && same_actor i.actor_user_id user_id
    && is_billable i.outcome
    && leb t i.created_at
    && leb i.created_at (t + 3600)

module _ (month_start : ℕ → ℕ) (household_id : Uuid) (user_id : Option Uuid)
    (policy : GatePolicy) where
  -- `categorize` and `propose` of tulip_ai/categorize.py, past the policy: the gate on the acting user, and
  -- the row that is written in any case, to which no actor is passed, its cost in a column of six places. The estimate is the gate's default of
  -- nought.
  unfoldable pub attempt : Attempt → List Invocation → List Invocation
  attempt a invocations =
      let gate =
        enforce_pre_call month_start household_id user_id policy nought a.now invocations in
      invocations
      ++ (record {
        household_id = household_id;
        created_at = a.written;
        actor_user_id = none;
        cost_estimate_usd = quantize 6 (cost_of a gate);
        outcome = outcome_of a gate;
      }
          ∷ [])

  unfoldable pub attempt_all : List Attempt → List Invocation → List Invocation
  attempt_all [] invocations = invocations
  attempt_all (a ∷ rest) invocations = attempt_all rest (attempt a invocations)

  abbrev pub IsLimited : List Invocation → Type 0
  IsLimited invocations =
      (t : ℕ)
      → length (keep (reached household_id user_id t) invocations) ≤ policy.rate_limit_per_hour

  -- What was reached since t is in the gate's window, if the window begins no later.
  reached_window :
      (t now : ℕ) (is : List Invocation)
      → now ≤ t + 3600
      → length (keep (reached household_id user_id t) is)
        ≤ length (keep (in_window household_id user_id now) is)
  reached_window t now [] later = omega arith
  reached_window t now (i ∷ is) later = let rest = reached_window t now is later in ground arith

  -- A refused call is not billed, and one that passes the rate check has seen fewer than the limit.
  billed_below :
      (a : Attempt) (is : List Invocation)
      → is_billable
          (outcome_of a (enforce_pre_call month_start household_id user_id policy nought a.now is))
        ≡ true
      → suc (length (keep (in_window household_id user_id a.now) is)) ≤ policy.rate_limit_per_hour
  unfolding enforce_pre_call check_rate_limit
  billed_below a is billed =
      elim (Bool-cases (
        leb policy.rate_limit_per_hour (length (keep (in_window household_id user_id a.now) is)))) [
          | inl limited ↦ absurd (cc (rw limited at billed))
          | inr open_ ↦ ground arith
        ]

  attempt-IsLimited :
      (a : Attempt) (is : List Invocation)
      → user_id ≡ none
      → a.now ≤ a.written
      → IsLimited is
      → IsLimited (attempt a is)
  unfolding attempt
  attempt-IsLimited a is system timely limited t =
      let gate = enforce_pre_call month_start household_id user_id policy nought a.now is in
      let row : Invocation = record {
        household_id = household_id;
        created_at = a.written;
        actor_user_id = none;
        cost_estimate_usd = quantize 6 (cost_of a gate);
        outcome = outcome_of a gate;
      } in
      let before = limited t in
      rw
        (
          keep-append (reached household_id user_id t) is (row ∷ []),
          length-append (keep (reached household_id user_id t) is)
              (keep (reached household_id user_id t) (row ∷ [])),
        )
        (elim (Bool-cases (reached household_id user_id t row)) [
          | inr other ↦ rw other (omega arith)
          | inl own ↦
              let billed : is_billable (outcome_of a gate) ≡ true = ground arith in
              let below = billed_below a is billed in
              let within = reached_window t a.now is (ground arith) in rw own (omega arith)
        ])

  -- Of calls that no user acts in, however many and however they end: if each row is written no
  -- sooner than its gate ran, no hour has more that reached a provider than the limit, if none had
  -- before.
  pub attempt_all-IsLimited :
      (attempts : List Attempt) (invocations : List Invocation)
      → user_id ≡ none
      → All (λ a. a.now ≤ a.written) attempts
      → IsLimited invocations
      → IsLimited (attempt_all attempts invocations)
  unfolding attempt_all
  attempt_all-IsLimited [] invocations system timely limited = limited
  attempt_all-IsLimited (a ∷ rest) invocations system (first, later) limited =
      attempt_all-IsLimited rest (attempt a invocations) system later
        (attempt-IsLimited a invocations system first limited)
