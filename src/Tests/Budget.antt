-- ===== src/Tests/Budget.antt =====
-- The shadow ledger's tables, the refill job, the requests over both ledgers, and paths of accounts.
use tulip_accounting.Prelude.{
  ℕ, ◌≡◌, refl, arith, true, false, String, str_eq, Option, none, some, List, [], ◌∷◌,
  if◌then◌else◌,
}
use tulip_accounting.Prelude.Int.{pos, negsuc, ◌+ℤ◌, times_ten}
use tulip_accounting.Prelude.Dict.{Dict}
use tulip_accounting.Prelude.Results.{Error, Result, ok, err, Ensures}
use tulip_accounting.Decimal.{quantize, Decimal, add, le, eq, shift}
use tulip_accounting.Currency.{from_code}
use tulip_accounting.Money.{money}
use tulip_accounting.Transactions.{Uuid, tally}
use tulip_accounting.Transactions.Balance.{tally_iff}
use tulip_accounting.Allocation.{
  PoolType, BudgetPeriod, RolloverPolicy, RefillRule, RefillStrategy, check_refill_rule,
}
use tulip_accounting.Allocation.Refill.Json.{from_dict, strategy_of}
use tulip_accounting.Allocation.Shadow.{ShadowTransaction, ShadowTxReason, ShadowTxStatus}
use tulip_accounting.Storage.Tables.{find}
use tulip_accounting.Storage.Budget.{Budget, PoolRow, EnvelopeRow, leg_amounts}
use tulip_accounting.Storage.Budget.Shadow.{shadow_rows_of, shadow_header}
use tulip_accounting.Storage.Budget.Shadow.Book.{saving, voiding, ShadowCall}
use tulip_accounting.Storage.Budget.Queries.{balance_for_pool, posted_legs}
use tulip_accounting.Storage.Budget.Queries.Conserved.{held, held_zero}
use tulip_accounting.Storage.Budget.Pools.{
  SystemPools, is_system_pool, get_envelope, get_or_create_system_pools,
}
use tulip_accounting.Storage.Budget.Pools.System.{get_or_create_system_pools_lem}
use tulip_accounting.Runner.EnvelopeRefill.{RefillJob, Drawn, rule_of, envelope_refill}
use tulip_accounting.Runner.EnvelopeRefill.Settled.{IsSound, envelope_refill-IsSound}
use tulip_accounting.Runner.EnvelopeRefill.TopUp.{held_in}
use tulip_accounting.Runner.EnvelopeRefill.Twice.{envelope_refill-fill}
use tulip_accounting.Tests.Data.{decimal, usd, fresh_ids}

-- 100.00 USD declared as income, into the pool of what is not allocated.
abbrev inflow : ShadowTransaction
inflow = record {
  id = 300;
  household_id = 1;
  date = 738_005;
  description = "Salary";
  reason = ShadowTxReason.budget_inflow;
  postings =
      record { id = 301; pool_id = 40; amount = usd (negsuc 9999); memo = none }
      ∷ record { id = 302; pool_id = 41; amount = usd (pos 10_000); memo = none }
      ∷ [];
  status = ShadowTxStatus.posted;
  paired_main_tx_id = none;
  created_by_user_id = none;
}

abbrev envelope_pool : PoolRow
envelope_pool = record {
  household_id = 1;
  id = 31;
  pool_type = PoolType.envelope;
  name = "Food";
  visibility = "shared";
  currency = "USD";
  is_active = true;
  is_system = false;
  created_by_user_id = none;
}

abbrev envelope : EnvelopeRow
envelope = record {
  household_id = 1;
  pool_id = 31;
  budget_period = BudgetPeriod.monthly;
  budget_amount = none;
  rollover_policy = RolloverPolicy.reset;
  refill_rule_json = some "fill";
}

abbrev start : Budget
start = record {
  shadow_headers = [];
  shadow_rows = [];
  pools = envelope_pool ∷ [];
  envelopes = envelope ∷ [];
}

-- The two pools that the income goes from and into.
abbrev system_pool : Uuid → PoolType → PoolRow
system_pool id t = record envelope_pool { id = id; pool_type = t; is_system = true }

abbrev funded : Budget
funded = record start {
  pools = system_pool 40 PoolType.inflow ∷ system_pool 41 PoolType.unallocated ∷ envelope_pool ∷ [];
}

-- The income saved, voided, and voided once more; a second save is refused.
abbrev calls : List ShadowCall
calls = saving inflow 5 ∷ saving inflow 6 ∷ voiding 300 7 ∷ voiding 300 8 ∷ voiding 999 9 ∷ []

-- The tables with the income.
abbrev paid : Budget
paid = record start {
  shadow_headers = record (shadow_header 1 inflow 5) { status = ShadowTxStatus.posted } ∷ [];
  shadow_rows = shadow_rows_of 1 300 inflow.postings;
}

held_zero_example : (held 1 none paid "USD" (40 ∷ 41 ∷ 31 ∷ [])).coeff ≡ pos 0
unfolding posted_legs tally add shift times_ten ◌+ℤ◌ quantize
held_zero_example =
    held_zero 1 none paid "USD" (40 ∷ 41 ∷ 31 ∷ [])
      ((λ posted. (tally_iff (leg_amounts (shadow_rows_of 1 300 inflow.postings))).0 refl), tt)
      ((λ e. absurd (cc)), tt) (refl, (refl, tt))

get_or_create_system_pools_lem_example :
    (s : SystemPools) × (after : Budget) × (get_or_create_system_pools fresh_ids 1 "USD" start
      ≡ ok (s, after))
    × (find (is_system_pool 1 PoolType.inflow "USD") after.pools ≡ some s.inflow)
    × (find (is_system_pool 1 PoolType.unallocated "USD") after.pools ≡ some s.unallocated)
    × (find (is_system_pool 1 PoolType.spent "USD") after.pools ≡ some s.spent)
    × ((later : ℕ → Uuid) → get_or_create_system_pools later 1 "USD" after ≡ ok (s, after))
get_or_create_system_pools_lem_example =
    get_or_create_system_pools_lem 1 "USD" fresh_ids start refl refl refl refl refl refl

-- The stored rule, and its only number.
abbrev loads : String → Result (Dict String)
loads text =
    if str_eq text "fill"
    then ok (("strategy", "fill_to_amount") ∷ ("amount", "50.00") ∷ ("currency", "USD") ∷ [])
    else err Error.bad_value

abbrev to_text : Decimal → String
to_text d = "50.00"

abbrev of_text : String → Option Decimal
of_text t = if str_eq t "50.00" then some (decimal (pos 5000) 2) else none

abbrev job : RefillJob
job = record { household_id = 1; envelope_id = some 31; last_run_at = none }

abbrev drawn : Drawn
drawn = record { window_now = 100; now = 1_000_000; saved_at = 101; fresh = fresh_ids }

abbrev top_up : RefillRule
top_up = record {
  strategy = RefillStrategy.fill_to_amount;
  amount = some (usd (pos 5000));
  percentage = none;
}

-- The rule's text is read as the rule.
rule_read : rule_of loads to_text of_text "fill" ≡ ok top_up
unfolding rule_of from_dict strategy_of check_refill_rule money from_code le shift times_ten
rule_read = refl

envelope_refill-fill_example :
    (after : Budget) × (envelope_refill loads to_text of_text job drawn start ≡ ok after)
    × (le (usd (pos 5000)).amount (held_in 1 31 "USD" start) ≡ false
        → eq (held_in 1 31 "USD" after) (usd (pos 5000)).amount ≡ true)
    × (le (usd (pos 5000)).amount (held_in 1 31 "USD" start) ≡ true
        → held_in 1 31 "USD" after ≡ held_in 1 31 "USD" start)
    × ((later : Drawn) → envelope_refill loads to_text of_text job later after ≡ ok after)
unfolding get_envelope from_code balance_for_pool
envelope_refill-fill_example =
    envelope_refill-fill loads to_text of_text job drawn start 31 envelope_pool envelope "fill"
      top_up (usd (pos 5000)) refl refl refl refl rule_read refl refl refl refl tt
      (refl, refl, refl, refl, refl, refl, refl, refl, refl, refl) refl (omega arith) (omega arith)

envelope_refill-IsSound_example :
    Ensures IsSound (envelope_refill loads to_text of_text job drawn paid)
unfolding tally add shift times_ten ◌+ℤ◌ quantize
envelope_refill-IsSound_example = envelope_refill-IsSound loads to_text of_text job drawn paid (
  (refl, (refl, tt)),
  ((λ posted. (tally_iff (leg_amounts (shadow_rows_of 1 300 inflow.postings))).0 refl), tt),
)
