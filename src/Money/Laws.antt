-- ===== src/Money/Laws.antt =====
-- Arithmetic on money: when an operation raises, and the laws of the results.
use tulip_accounting.Prelude.{◌≡◌, if◌then◌else◌, String, str_eq, eq_iff, true, arith}
use tulip_accounting.Prelude.Results.{Error, ok, err, is_ok, ◌>>=◌}
use tulip_accounting.Prelude.Int.{pos}
use tulip_accounting.Decimal.{Decimal, add}
use tulip_accounting.Decimal.Arithmetic.{add_comm, add_assoc, neg-neg, add-neg_self}
use tulip_accounting.Decimal.Quantize.{quantize_idem}
use tulip_accounting.Currency.{from_code}
use tulip_accounting.Money.{Money, IsMoney, money, plus, negate, quantize_to_currency}

-- Of a known currency the constructor makes any amount.
pub money_ok :
    (d : Decimal) (c : String)
    → is_ok (from_code c) ≡ true
    → money d c ≡ ok (record { amount = d; currency = c })
unfolding money
money_ok d c h = ground arith

-- A money that was constructed has a known currency.
pub money-IsMoney : (d : Decimal) (c : String) {m : Money} → money d c ≡ ok m → IsMoney m
unfolding money
money-IsMoney d c h = ground arith

-- A sum of valid values is their amounts' sum if the currencies agree, and raises exactly if not.
pub plus_lem :
    (a b : Money)
    → IsMoney a
    → plus a b ≡ (
        if str_eq a.currency b.currency
        then ok (record { amount = add a.amount b.amount; currency = a.currency })
        else err Error.currency_mismatch)
unfolding plus
plus_lem a b h = ground arith

-- The order of two valid values does not matter to their sum, also to whether it raises.
pub plus_comm : (a b : Money) → IsMoney a → IsMoney b → plus a b ≡ plus b a
plus_comm a b ha hb =
    rw (plus_lem a b ha, plus_lem b a hb)
      (ground (
        arith,
        eq_iff a.currency b.currency,
        eq_iff b.currency a.currency,
        add_comm a.amount b.amount,
      ))

-- Nor does the grouping of three.
pub plus_assoc :
    (a b c : Money)
    → IsMoney a
    → IsMoney b
    → IsMoney c
    → (plus a b >>= λ s. plus s c) ≡ (plus b c >>= λ t. plus a t)
unfolding plus money
plus_assoc a b c ha hb hc = ground (
  arith,
  eq_iff a.currency b.currency,
  eq_iff b.currency c.currency,
  eq_iff a.currency c.currency,
  add_assoc a.amount b.amount c.amount,
)

-- Negating a valid value twice gives it back, and a value plus its negation is a zero.
pub negate_lem :
    (a : Money)
    → IsMoney a
    → ((negate a >>= negate) ≡ ok a)
      × ((s : Money) → (negate a >>= plus a) ≡ ok s → s.amount.coeff ≡ pos 0)
unfolding negate plus money
negate_lem a h = (ground (arith, neg-neg a.amount), λ s e. ground (arith, add-neg_self a.amount))

-- Rounding to the currency's minor units is idempotent.
pub quantize_to_currency_idem :
    (a : Money) → (quantize_to_currency a >>= quantize_to_currency) ≡ quantize_to_currency a
unfolding quantize_to_currency money
quantize_to_currency_idem a = grind (arith, quantize_idem)
