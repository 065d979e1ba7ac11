-- ===== src/Tests/Money.antt =====
-- Currencies, decimals and money.
use tulip_accounting.Prelude.{◌-◌, ◌≤◌, ◌<◌, ◌≡◌, refl, true}
use tulip_accounting.Prelude.Int.{ℤ, pos, ◌+ℤ◌, times_ten}
use tulip_accounting.Prelude.Results.{Error, ok, err, is_ok}
use tulip_accounting.Decimal.{add, at, shift, quantize, ten_pow}
use tulip_accounting.Currency.{from_code, minor_unit_table}
use tulip_accounting.Money.{Money, IsMoney, plus, quantize_to_currency}
use tulip_accounting.Money.Rounding.{IsNearest, quantize_to_currency_lem}
use tulip_accounting.Tests.Data.{decimal, usd, eur}

bad_codes :
    (from_code "usd" ≡ err Error.invalid_currency_code)
    × (from_code "XYZ" ≡ err Error.unknown_currency)
    × (is_ok (from_code "JPY") ≡ true)
unfolding from_code
bad_codes = (refl, refl, refl)

-- 0.125 and 0.135 round to 0.12 and 0.14.
half_to_even :
    (quantize 2 (decimal (pos 125) 3) ≡ decimal (pos 12) 2)
    × (quantize 2 (decimal (pos 135) 3) ≡ decimal (pos 14) 2)
    × (quantize 2 (decimal (pos 7) 0) ≡ decimal (pos 700) 2)
unfolding quantize shift times_ten
half_to_even = (refl, refl, refl)

-- 1.5 + 0.25 keeps two decimals.
different_places : add (decimal (pos 15) 1) (decimal (pos 25) 2) ≡ decimal (pos 175) 2
unfolding add shift times_ten ◌+ℤ◌
different_places = refl

mixed_currencies : plus (usd (pos 1)) (eur (pos 1)) ≡ err Error.currency_mismatch
unfolding plus
mixed_currencies = refl

usd-IsMoney : (z : ℤ) → IsMoney (usd z)
unfolding from_code
usd-IsMoney z = refl

abbrev eighth : Money
eighth = record { amount = decimal (pos 125) 3; currency = "USD" }

quantize_to_currency_lem_example :
    (m : Money) × (quantize_to_currency eighth ≡ ok m)
    × (m.currency ≡ eighth.currency)
    × (m.amount.places ≡ 2)
    × (eighth.amount.places ≤ 2 → m.amount.coeff ≡ at 2 eighth.amount)
    × (2 < eighth.amount.places
        → IsNearest (ten_pow (eighth.amount.places - 2)) eighth.amount.coeff m.amount.coeff)
unfolding from_code minor_unit_table
quantize_to_currency_lem_example = quantize_to_currency_lem eighth 2 refl refl
