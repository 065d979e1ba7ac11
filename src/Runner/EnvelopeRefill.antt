-- ===== src/Runner/EnvelopeRefill.antt =====
-- runner/handlers/envelope_refill.py: the handler of the jobs that refill an envelope. A session that ends
-- in an error is not committed. Parameters: `json.loads` and `Decimal` of a text, and what is drawn.
pub mod Settled
pub mod TopUp
pub mod Twice
use Prim.Native.String.{◌++◌ as concat}
use tulip_accounting.Prelude.{
  ℕ, ◌+◌, ◌-◌, ◌/◌, Bool, true, false, not, String, Option, none, some, List, [], ◌∷◌, ltb,
  if◌then◌else◌,
}
use tulip_accounting.Prelude.Dict.{Dict}
use tulip_accounting.Prelude.Results.{Error, Result, ok, err, raise_if, ◌>>◌, ◌>>=◌}
use tulip_accounting.Decimal.{Decimal, neg, not_positive}
use tulip_accounting.Money.{Money, money}
use tulip_accounting.Transactions.{Uuid, Date}
use tulip_accounting.Transactions.Balance.{net}
use tulip_accounting.Allocation.{RefillRule, RefillStrategy}
use tulip_accounting.Allocation.Refill.{evaluate_refill_rule}
use tulip_accounting.Allocation.Refill.Json.{strategy_value, from_dict}
use tulip_accounting.Allocation.Shadow.{
  ShadowTransaction, ShadowTxStatus, ShadowTxReason, check_shadow_transaction,
}
use tulip_accounting.Storage.Budget.{Budget, PoolRow, EnvelopeRow}
use tulip_accounting.Storage.Budget.Shadow.{save_shadow}
use tulip_accounting.Storage.Budget.Shadow.Book.{second}
use tulip_accounting.Storage.Budget.Queries.{balance_for_pool, inflow_since}
use tulip_accounting.Storage.Budget.Pools.{get_envelope, SystemPools, get_or_create_system_pools}

-- The job that the runner passes, its payload's `envelope_id` as the UUID that it reads as.
pub record RefillJob : Type 0 where
  pub household_id : Uuid
  pub envelope_id : Option Uuid
  pub last_run_at : Option ℕ

-- What one run draws: the readings of its clock, the clock of the repository, and the identifiers.
pub record Drawn : Type 0 where
  pub window_now : ℕ
  pub now : ℕ
  pub saved_at : ℕ
  pub fresh : ℕ → Uuid

-- `.date()` of seconds since 1970, whose ordinal is 719163
abbrev pub date_of : ℕ → Date
date_of seconds = seconds / 86400 + 719163

-- `FIRST_FIRE_INFLOW_LOOKBACK`
abbrev pub first_fire_inflow_lookback : ℕ
first_fire_inflow_lookback = 2592000

-- `_inflow_window_start`
unfoldable pub inflow_window_start : RefillJob → ℕ → ℕ
inflow_window_start job now = elim job.last_run_at [
  | none ↦ now - first_fire_inflow_lookback
  | some last ↦ last
]

-- The inflow that only a share of the income asks for.
unfoldable pub recent_inflow :
    RefillStrategy → RefillJob → ℕ → String → Budget → Result (Option Money)
unfolding inflow_since inflow_window_start money
recent_inflow RefillStrategy.fixed_amount job now currency b = ok none
recent_inflow RefillStrategy.fill_to_amount job now currency b = ok none
recent_inflow RefillStrategy.percentage_of_income job now currency b = do
  m ←
      money (inflow_since job.household_id currency (date_of (inflow_window_start job now)) b)
        currency
  ok (some m)

-- The shadow transaction of step 6.
abbrev pub refill_tx :
    RefillJob → Drawn → RefillRule → PoolRow → PoolRow → Money → Money → ShadowTransaction
refill_tx job drawn rule pool unallocated taken amount = record {
  id = drawn.fresh 3;
  household_id = job.household_id;
  date = date_of drawn.now;
  description = concat "Auto-refill: " pool.name;
  reason = ShadowTxReason.refill;
  postings =
      record {
        id = drawn.fresh 4;
        pool_id = unallocated.id;
        amount = taken;
        memo =
            some (
              concat (concat "Auto-refill from rule (strategy=" (strategy_value rule.strategy))
                ")");
      }
      ∷ record {
        id = drawn.fresh 5;
        pool_id = pool.id;
        amount = amount;
        memo = some (concat "Auto-refill into " pool.name);
      }
      ∷ [];
  status = ShadowTxStatus.posted;
  paired_main_tx_id = none;
  created_by_user_id = none;
}

-- Step 6, where there is something to contribute
unfoldable pub contribute :
    RefillJob → Drawn → PoolRow → RefillRule → SystemPools × Budget → Money → Result Budget
unfolding money check_shadow_transaction save_shadow strategy_value
contribute job drawn pool rule made amount = if not_positive amount.amount then ok made.1 else do
  taken ← money (neg amount.amount) pool.currency
  tx ← check_shadow_transaction (refill_tx job drawn rule pool made.0.unallocated taken amount)
  second (save_shadow job.household_id tx drawn.saved_at made.1)

-- Steps 2 to 6 under a rule.
unfoldable pub refill_by_rule : RefillJob → Drawn → PoolRow → RefillRule → Budget → Result Budget
unfolding get_or_create_system_pools balance_for_pool recent_inflow evaluate_refill_rule money
    contribute
refill_by_rule job drawn pool rule b = do
  made ← get_or_create_system_pools drawn.fresh job.household_id pool.currency b
  let balances = balance_for_pool job.household_id pool.id (some pool.currency) none made.1
  balance ← money (net pool.currency balances) pool.currency
  inflow ← recent_inflow rule.strategy job drawn.window_now pool.currency made.1
  amount ← evaluate_refill_rule rule balance inflow
  contribute job drawn pool rule made amount

module _ (loads : String → Result (Dict String)) (to_text : Decimal → String)
    (of_text : String → Option Decimal) where
  -- `RefillRule.from_dict(json.loads(text))`
  unfoldable pub rule_of : String → Result RefillRule
  unfolding from_dict
  rule_of text = do entries ← loads text; from_dict to_text of_text entries

  -- `_process` by the rule of an active envelope
  unfoldable pub refill_ruled : RefillJob → Drawn → PoolRow → Option String → Budget → Result Budget
  unfolding rule_of refill_by_rule
  refill_ruled job drawn pool none b = ok b
  refill_ruled job drawn pool (some text) b = do
    rule ← rule_of text
    refill_by_rule job drawn pool rule b

  -- `_process`
  unfoldable pub refill_found :
      RefillJob → Drawn → Option (PoolRow × EnvelopeRow) → Budget → Result Budget
  unfolding refill_ruled
  refill_found job drawn none b = err Error.envelope_refill
  refill_found job drawn (some (pool, env)) b =
      if not pool.is_active then ok b else refill_ruled job drawn pool env.refill_rule_json b

  -- `handle`
  unfoldable pub refill_given : RefillJob → Drawn → Option Uuid → Budget → Result Budget
  unfolding refill_found get_envelope
  refill_given job drawn none b = err Error.envelope_refill
  refill_given job drawn (some envelope_id) b =
      refill_found job drawn (get_envelope job.household_id envelope_id b) b

  unfoldable pub envelope_refill : RefillJob → Drawn → Budget → Result Budget
  unfolding refill_given
  envelope_refill job drawn b = refill_given job drawn job.envelope_id b
