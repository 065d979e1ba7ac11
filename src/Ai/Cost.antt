-- ===== src/Ai/Cost.antt =====
-- tulip_ai/cost.py: `check_cost_cap`, `check_rate_limit` and `enforce_pre_call`. Times are seconds; the
-- start of a month is calendar arithmetic of the standard library and a parameter. The lock of
-- `enforce_pre_call` is the order of the calls, and the texts of the reasons are left out.
use tulip_accounting.Prelude.{
  ℕ, ◌+◌, Bool, true, false, not, ◌&&◌, String, str_eq, Option, none, some, List, [], ◌∷◌, ◌==◌,
  leb, keep, length, if◌then◌else◌,
}
use tulip_accounting.Decimal.{Decimal, nought, add, le}
use tulip_accounting.Transactions.{Uuid}

-- `AIOutcome`
pub data AiOutcome : Type 0 where
  success provider_error redacted_only_preview policy_disabled rate_limited cost_capped : AiOutcome

-- The columns of `AIInvocation` that the gate reads.
pub record Invocation : Type 0 where
  pub household_id : Uuid
  pub created_at : ℕ
  pub actor_user_id : Option Uuid
  pub cost_estimate_usd : Decimal
  pub outcome : AiOutcome

-- `_billable_outcomes`
abbrev pub is_billable : AiOutcome → Bool
is_billable AiOutcome.success = true
is_billable AiOutcome.provider_error = true
is_billable _ = false

-- `CostDecision`; its kind is whether the cap is exceeded.
pub record CostDecision : Type 0 where
  pub is_exceeded : Bool
  pub spent_so_far_usd : Decimal
  pub cap_usd : Option Decimal

-- `RateDecision`; its kind is whether the rate is limited.
pub record RateDecision : Type 0 where
  pub is_limited : Bool
  pub count_in_window : ℕ
  pub limit_per_hour : ℕ

-- `coalesce(sum(cost_estimate_usd), 0)`
abbrev pub sum_costs : List Invocation → Decimal
sum_costs [] = nought
sum_costs (i ∷ is) = add i.cost_estimate_usd (sum_costs is)

-- What the household has spent in the month that begins at `start`.
unfoldable pub spent_since : Uuid → ℕ → List Invocation → Decimal
spent_since household_id start invocations = sum_costs (
    keep (λ i. i.household_id == household_id && leb start i.created_at && is_billable i.outcome)
      invocations)

-- `actor_user_id IS NULL`, or equal to a user
abbrev pub same_actor : Option Uuid → Option Uuid → Bool
same_actor none none = true
same_actor (some a) (some b) = a == b
same_actor _ _ = false

-- An invocation of a user in the hour before `now`, or later.
abbrev pub in_window : Uuid → Option Uuid → ℕ → Invocation → Bool
in_window household_id user_id now i =
    i.household_id == household_id
    && leb now (i.created_at + 3600)
    && same_actor i.actor_user_id user_id

abbrev pub default_rate_limit_per_hour : ℕ
default_rate_limit_per_hour = 60

abbrev or_default : Option ℕ → ℕ
or_default none = default_rate_limit_per_hour
or_default (some limit) = limit

-- `check_rate_limit`
unfoldable pub check_rate_limit : Uuid → Option Uuid → Option ℕ → ℕ → List Invocation → RateDecision
check_rate_limit household_id user_id limit_per_hour now invocations =
    let count = length (keep (in_window household_id user_id now) invocations) in
    record {
      is_limited = leb (or_default limit_per_hour) count;
      count_in_window = count;
      limit_per_hour = or_default limit_per_hour;
    }

-- `PreCallResult`: a `PreCallApproval`, or a `PreCallBlock` with its outcome.
pub data PreCallResult : Type 0 where
  approval : (provider model : Option String) → (degraded : Bool) → PreCallResult
  block : AiOutcome → PreCallResult

-- What a resolved policy hands to the gate.
pub record GatePolicy : Type 0 where
  pub rate_limit_per_hour : ℕ
  pub monthly_cost_cap_usd : Option Decimal
  -- Is `cost_cap_behaviour` "degrade" and not "hard_fail"?
  pub degrades : Bool
  pub fallback_provider : Option String
  pub fallback_model : Option String
  pub primary_provider : Option String
  pub primary_model : Option String

-- The truth of a text that may be `None`.
abbrev pub is_given : Option String → Bool
is_given none = false
is_given (some t) = not (str_eq t "")

module _ (month_start : ℕ → ℕ) where
  -- `check_cost_cap`
  unfoldable pub check_cost_cap :
      Uuid → Decimal → Option Decimal → ℕ → List Invocation → CostDecision
  unfolding spent_since le
  check_cost_cap household_id estimate none now invocations = record {
    is_exceeded = false;
    spent_so_far_usd = nought;
    cap_usd = none;
  }
  check_cost_cap household_id estimate (some cap) now invocations =
      let spent = spent_since household_id (month_start now) invocations in
      record {
        is_exceeded = not (le (add spent estimate) cap);
        spent_so_far_usd = spent;
        cap_usd = some cap;
      }

  -- `enforce_pre_call`
  unfoldable pub enforce_pre_call :
      Uuid → Option Uuid → GatePolicy → Decimal → ℕ → List Invocation → PreCallResult
  unfolding check_rate_limit check_cost_cap
  enforce_pre_call household_id user_id policy estimate now invocations =
      if (check_rate_limit household_id user_id (some policy.rate_limit_per_hour) now
        invocations).is_limited
      then block AiOutcome.rate_limited
      else if not
          (check_cost_cap household_id estimate policy.monthly_cost_cap_usd now
            invocations).is_exceeded
      then approval policy.primary_provider policy.primary_model false
      else if policy.degrades && is_given policy.fallback_provider
      then approval policy.fallback_provider policy.fallback_model true
      else block AiOutcome.cost_capped
