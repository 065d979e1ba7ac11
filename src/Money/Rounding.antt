-- ===== src/Money/Rounding.antt =====
-- `quantize_to_currency`: the nearest amount in the currency's minor units, ties to even.
use tulip_accounting.Prelude.{
  ℕ, suc, ◌+◌, ◌-◌, ◌*◌, ◌%◌, ◌≤◌, ◌<◌, ◌≡◌, refl, arith, false, some, leb,
}
use tulip_accounting.Prelude.Int.{ℤ, pos, negsuc, pos_part, neg_part, -ℤ_parts}
use tulip_accounting.Prelude.Results.{ok}
use tulip_accounting.Prelude.Dict.{lookup}
use tulip_accounting.Decimal.{Decimal, at, half_even, ten_pow, round_off, quantize}
use tulip_accounting.Decimal.Quantize.{
  ten_pow_pos, half_even_nearest, half_even_zero, places-quantize, quantize_exact,
}
use tulip_accounting.Currency.{from_code_ok, minor_unit_table}
use tulip_accounting.Money.{Money, IsMoney, money, quantize_to_currency}

abbrev pub magnitude : ℤ → ℕ
magnitude z = pos_part z + neg_part z

-- `r` is the integer nearest to z / d with the sign of z, the even one of two that are as near.
pub record IsNearest (d : ℕ) (z r : ℤ) : Type 0 where
  pub not_below : 2 * magnitude z ≤ 2 * (magnitude r * d) + d
  pub not_above : 2 * (magnitude r * d) ≤ 2 * magnitude z + d
  pub tie_down : 2 * magnitude z ≡ 2 * (magnitude r * d) + d → magnitude r % 2 ≡ 0
  pub tie_up : 2 * (magnitude r * d) ≡ 2 * magnitude z + d → magnitude r % 2 ≡ 0
  pub sign_pos : neg_part z ≡ 0 → neg_part r ≡ 0
  pub sign_neg : pos_part z ≡ 0 → pos_part r ≡ 0

-- The rounded quotient of magnitudes, with the signs put back.
signed-IsNearest :
    (d n : ℕ) (z r : ℤ)
    → 0 < d
    → magnitude z ≡ n
    → magnitude r ≡ half_even n d
    → (neg_part z ≡ 0 → neg_part r ≡ 0)
    → (pos_part z ≡ 0 → pos_part r ≡ 0)
    → IsNearest d z r
signed-IsNearest d n z r h ez er sp sn =
    let near = half_even_nearest n d h in
    record {
      not_below = rw (ez, er) near.0;
      not_above = rw (ez, er) near.1;
      tie_down = rw (ez, er) near.2;
      tie_up = rw (ez, er) near.3;
      sign_pos = sp;
      sign_neg = sn;
    }

round_off-IsNearest : (k : ℕ) (z : ℤ) → IsNearest (ten_pow k) z (round_off k z)
unfolding round_off
round_off-IsNearest k (pos n) =
    signed-IsNearest (ten_pow k) n (pos n) (round_off k (pos n)) (ten_pow_pos k) (omega arith)
      (omega arith) (λ e. refl) (λ e. let z = half_even_zero (ten_pow k) in rw (e, z) refl)
round_off-IsNearest k (negsuc n) =
    let parts = -ℤ_parts (pos (half_even (suc n) (ten_pow k))) in
    signed-IsNearest (ten_pow k) (suc n) (negsuc n) (round_off k (negsuc n)) (ten_pow_pos k)
      (omega arith) (omega (arith, parts)) (λ e. absurd (omega arith)) (λ e. parts.0)

quantize-IsNearest :
    (digits : ℕ) (a : Decimal)
    → digits < a.places
    → IsNearest (ten_pow (a.places - digits)) a.coeff (quantize digits a).coeff
unfolding quantize
quantize-IsNearest digits a h =
    let e : leb a.places digits ≡ false = ground arith in
    rw e (round_off-IsNearest (a.places - digits) a.coeff)

-- A valid amount is always rounded: the result has the currency and just its number of decimals, is
-- the nearest such amount with a tie going to the even one, and is the amount itself, written with
-- those decimals, if it had no more of them.
pub quantize_to_currency_lem :
    (a : Money) (digits : ℕ)
    → IsMoney a
    → lookup a.currency minor_unit_table ≡ some digits
    → (m : Money) × (quantize_to_currency a ≡ ok m)
      × (m.currency ≡ a.currency)
      × (m.amount.places ≡ digits)
      × (a.amount.places ≤ digits → m.amount.coeff ≡ at digits a.amount)
      × (digits < a.amount.places
          → IsNearest (ten_pow (a.amount.places - digits)) a.amount.coeff m.amount.coeff)
unfolding quantize_to_currency money
quantize_to_currency_lem a digits h e = (
  record { amount = quantize digits a.amount; currency = a.currency },
  rw (from_code_ok a.currency h e) refl,
  refl,
  places-quantize digits a.amount,
  quantize_exact digits a.amount,
  quantize-IsNearest digits a.amount,
)
