-- ===== src/Money.antt =====
-- tulip_core/money/money.py: an amount with its currency.
-- The checks of the Python types (no float, no bool, a `Decimal`) are the types of this model.
pub mod Laws
pub mod Rounding
use tulip_accounting.Prelude.{Bool, true, not, ◌≡◌, ◌&&◌, String, str_eq}
use tulip_accounting.Prelude.Results.{Error, Result, ok, err, raise_if, is_ok, ◌>>◌, ◌>>=◌}
use tulip_accounting.Decimal.{Decimal, nought, add, sub, neg, mul, eq, quantize}
use tulip_accounting.Currency.{Currency, from_code}

pub record Money : Type 0 where
  pub amount : Decimal
  pub currency : String

-- `Money(amount, currency)` with its `__post_init__`.
unfoldable pub money : Decimal → String → Result Money
money amount currency = do from_code currency; ok (record { amount = amount; currency = currency })

-- `_check_same_currency`
abbrev check_same_currency : Money → Money → Result (Unit {0})
check_same_currency a b = raise_if (not (str_eq a.currency b.currency)) Error.currency_mismatch

-- `Money.zero`
unfoldable pub zero_money : String → Result Money
unfolding money
zero_money currency = money nought currency

-- `__add__`
unfoldable pub plus : Money → Money → Result Money
unfolding money
plus a b = do check_same_currency a b; money (add a.amount b.amount) a.currency

-- `__sub__`
unfoldable pub minus : Money → Money → Result Money
unfolding money
minus a b = do check_same_currency a b; money (sub a.amount b.amount) a.currency

-- `__neg__`
unfoldable pub negate : Money → Result Money
unfolding money
negate a = money (neg a.amount) a.currency

-- `__mul__`, by a scalar that is an `int` or a `Decimal`.
unfoldable pub times : Money → Decimal → Result Money
unfolding money
times a scalar = money (mul a.amount scalar) a.currency

-- `quantize_to_currency`
unfoldable pub quantize_to_currency : Money → Result Money
unfolding money
quantize_to_currency a = do
  c ← from_code a.currency
  money (quantize c.minor_units a.amount) a.currency

-- The dataclass's `==`: the amounts by value, and the currencies.
unfoldable pub money_eq : Money → Money → Bool
money_eq a b = eq a.amount b.amount && str_eq a.currency b.currency

-- What the constructor grants: the currency is one of the table.
abbrev pub IsMoney : Money → Type 0
IsMoney a = is_ok (from_code a.currency) ≡ true
