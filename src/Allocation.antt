-- ===== src/Allocation.antt =====
-- tulip_core/allocation: pools, envelopes, sinking funds and refill rules with their constructors'
-- checks. The children model the shadow ledger and the refill engine.
pub mod Laws
pub mod Refill
pub mod Shadow
use tulip_accounting.Prelude.{
  ℕ, Bool, true, false, not, ◌&&◌, ◌||◌, String, Option, none, some, ◌==◌, if◌then◌else◌, str_eq,
}
use tulip_accounting.Prelude.Int.{pos}
use tulip_accounting.Prelude.Results.{Error, Result, ok, err, raise_if, ◌>>◌, ◌>>=◌}
use tulip_accounting.Decimal.{Decimal, nought, le, not_positive, is_negative}
use tulip_accounting.Currency.{from_code}
use tulip_accounting.Money.{Money}
use tulip_accounting.Transactions.{Uuid, Date, is_some}

-- `PoolType`
pub data PoolType : Type 0 where
  envelope sinking_fund inflow unallocated spent : PoolType

-- membership in `SYSTEM_POOL_TYPES`
abbrev pub is_system_type : PoolType → Bool
is_system_type PoolType.envelope = false
is_system_type PoolType.sinking_fund = false
is_system_type PoolType.inflow = true
is_system_type PoolType.unallocated = true
is_system_type PoolType.spent = true

pub record Pool : Type 0 where
  pub id : Uuid
  pub household_id : Uuid
  pub pool_type : PoolType
  pub name : String
  pub currency : String
  pub visibility : String
  pub is_active : Bool
  pub is_system : Bool

-- `Pool.__post_init__`
unfoldable pub check_pool : Pool → Result Pool
check_pool p = do
  from_code p.currency
  raise_if (str_eq p.name "") Error.empty_name
  raise_if (not (str_eq p.visibility "shared" || str_eq p.visibility "private"))
      Error.bad_visibility
  raise_if (is_system_type p.pool_type && not p.is_system) Error.system_flag_missing
  raise_if (not (is_system_type p.pool_type) && p.is_system) Error.system_flag_forbidden
  raise_if (p.is_system && not (str_eq p.visibility "shared")) Error.system_not_shared
  ok p

-- `RefillStrategy`
pub data RefillStrategy : Type 0 where
  fixed_amount fill_to_amount percentage_of_income : RefillStrategy

pub record RefillRule : Type 0 where
  pub strategy : RefillStrategy
  pub amount : Option Money
  pub percentage : Option Decimal

-- `Decimal(1)`
abbrev pub one : Decimal
one = record { coeff = pos 1; places = 0 }

-- The part of `RefillRule.__post_init__` for the two strategies with an amount.
check_rule_amount : Option Money → Option Decimal → Result (Unit {0})
check_rule_amount none percentage = err Error.amount_required
check_rule_amount (some m) (some p) = err Error.percentage_forbidden
check_rule_amount (some m) none = raise_if (not_positive m.amount) Error.amount_not_positive

-- The part for the share of the income.
check_rule_percentage : Option Money → Option Decimal → Result (Unit {0})
check_rule_percentage amount none = err Error.percentage_required
check_rule_percentage (some m) (some p) = err Error.amount_forbidden
check_rule_percentage none (some p) =
    raise_if (not (not (le p nought) && le p one)) Error.percentage_out_of_range

check_strategy : RefillStrategy → Option Money → Option Decimal → Result (Unit {0})
unfolding check_rule_amount check_rule_percentage
check_strategy RefillStrategy.fixed_amount a p = check_rule_amount a p
check_strategy RefillStrategy.fill_to_amount a p = check_rule_amount a p
check_strategy RefillStrategy.percentage_of_income a p = check_rule_percentage a p

-- `RefillRule.__post_init__`
unfoldable pub check_refill_rule : RefillRule → Result RefillRule
unfolding check_strategy
check_refill_rule r = do check_strategy r.strategy r.amount r.percentage; ok r

-- `BudgetPeriod`
pub data BudgetPeriod : Type 0 where
  weekly biweekly monthly quarterly annual custom : BudgetPeriod

-- `RolloverPolicy`
pub data RolloverPolicy : Type 0 where
  reset accumulate cap_at_budget : RolloverPolicy

pub record Envelope : Type 0 where
  pub pool : Pool
  pub budget_period : BudgetPeriod
  pub rollover_policy : RolloverPolicy
  pub budget_amount : Option Money
  pub refill_rule : Option RefillRule

-- `m is not None and m.currency != c`
abbrev pub other_currency : Option Money → String → Bool
other_currency none c = false
other_currency (some m) c = not (str_eq m.currency c)

abbrev is_negative_amount : Option Money → Bool
is_negative_amount none = false
is_negative_amount (some m) = is_negative m.amount

abbrev rule_amount : Option RefillRule → Option Money
rule_amount none = none
rule_amount (some r) = r.amount

abbrev is_envelope_type : PoolType → Bool
is_envelope_type PoolType.envelope = true
is_envelope_type _ = false

abbrev is_sinking_fund_type : PoolType → Bool
is_sinking_fund_type PoolType.sinking_fund = true
is_sinking_fund_type _ = false

-- `Envelope.__post_init__`
unfoldable pub check_envelope : Envelope → Result Envelope
check_envelope e = do
  raise_if (not (is_envelope_type e.pool.pool_type)) Error.wrong_pool_type
  raise_if (other_currency e.budget_amount e.pool.currency) Error.currency_mismatch
  raise_if (is_negative_amount e.budget_amount) Error.negative_budget
  raise_if (other_currency (rule_amount e.refill_rule) e.pool.currency) Error.currency_mismatch
  ok e

-- `ContributionStrategy`
pub data ContributionStrategy : Type 0 where
  manual even_split share_of_income : ContributionStrategy

pub record SinkingFund : Type 0 where
  pub pool : Pool
  pub target_amount : Money
  pub target_date : Date
  pub contribution_strategy : ContributionStrategy
  pub contribution_amount : Option Money

abbrev pub is_derived : ContributionStrategy → Bool
is_derived ContributionStrategy.manual = false
is_derived ContributionStrategy.even_split = true
is_derived ContributionStrategy.share_of_income = true

-- `SinkingFund.__post_init__`
unfoldable pub check_sinking_fund : SinkingFund → Result SinkingFund
check_sinking_fund f = do
  raise_if (not (is_sinking_fund_type f.pool.pool_type)) Error.wrong_pool_type
  raise_if (not (str_eq f.target_amount.currency f.pool.currency)) Error.currency_mismatch
  raise_if (not_positive f.target_amount.amount) Error.target_not_positive
  raise_if (other_currency f.contribution_amount f.pool.currency) Error.currency_mismatch
  raise_if (is_derived f.contribution_strategy && is_some f.contribution_amount)
      Error.contribution_forbidden
  ok f
