-- ===== src/Allocation/Refill.antt =====
-- tulip_core/allocation/refill_engine.py: how much an envelope is refilled with.
pub mod Bounds
pub mod Json
pub mod RoundTrip
use tulip_accounting.Prelude.{
  Option, none, some, Bool, true, false, not, ◌||◌, str_eq, if◌then◌else◌,
}
use tulip_accounting.Prelude.Results.{Error, Result, ok, err, raise_if, ◌>>◌, ◌>>=◌}
use tulip_accounting.Decimal.{Decimal, sub, mul, not_positive}
use tulip_accounting.Money.{Money, money, zero_money}
use tulip_accounting.Allocation.{RefillStrategy, RefillRule}

-- `assert x is not None`
abbrev pub assert_some {ℓ} : {A : Type ℓ} → Option A → Result A
assert_some none = err Error.assertion
assert_some (some a) = ok a

-- `if m.currency != c: raise CurrencyMismatchError`
abbrev same_or_raise : Money → Money → Result (Unit {0})
same_or_raise a b = raise_if (not (str_eq a.currency b.currency)) Error.currency_mismatch

-- A contribution, or zero if it is not positive.
abbrev positive_or_zero : Decimal → Money → Result Money
positive_or_zero d balance =
    if not_positive d then zero_money balance.currency else money d balance.currency

from_inflow : Decimal → Money → Option Money → Result Money
from_inflow percentage balance none = zero_money balance.currency
from_inflow percentage balance (some inflow) =
    if not_positive inflow.amount
    then zero_money balance.currency
    else do same_or_raise inflow balance; positive_or_zero (mul inflow.amount percentage) balance

refill_by : RefillStrategy → RefillRule → Money → Option Money → Result Money
unfolding from_inflow
refill_by RefillStrategy.fixed_amount rule balance inflow = do
  amount ← assert_some rule.amount
  same_or_raise amount balance
  ok amount
refill_by RefillStrategy.fill_to_amount rule balance inflow = do
  amount ← assert_some rule.amount
  same_or_raise amount balance
  positive_or_zero (sub amount.amount balance.amount) balance
refill_by RefillStrategy.percentage_of_income rule balance inflow = do
  percentage ← assert_some rule.percentage
  from_inflow percentage balance inflow

-- `evaluate_refill_rule(rule, current_balance=..., recent_inflow=...)`
unfoldable pub evaluate_refill_rule : RefillRule → Money → Option Money → Result Money
unfolding refill_by money zero_money
evaluate_refill_rule rule balance inflow = refill_by rule.strategy rule balance inflow
