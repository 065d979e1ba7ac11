-- ===== src/Decimal/Quantize.antt =====
-- Rounding to a number of places: nearest, ties to even, and nothing more to do the second time.
use native.Mathlib.Nat.{mod-lt, div-add-mod}
use tulip_accounting.Prelude.{
  ℕ, zero, suc, ◌+◌, ◌-◌, ◌*◌, ◌/◌, ◌%◌, ◌≤◌, ◌<◌, ◌≡◌, true, Bool-cases, leb, max, refl, arith,
  ◌⊎◌, inl, inr, sym, ◌∙◌,
}
use tulip_accounting.Prelude.Int.{ℤ, pos, negsuc, ◌+ℤ◌, -ℤ◌, int_laws}
use tulip_accounting.Decimal.{
  Decimal, add, sub, neg, eq, shift, at, half_even, ten_pow, round_off, quantize,
}
use tulip_accounting.Decimal.Arithmetic.{ext, at-add, at-neg, shift_neg, places-add}
use tulip_accounting.Decimal.Order.{eqb_ℤ_refl, places-neg}

pub ten_pow_pos : (k : ℕ) → 0 < ten_pow k
unfolding ten_pow
ten_pow_pos zero = omega arith
ten_pow_pos (suc k) = omega (arith, ten_pow_pos k)

-- The quotient is rounded down or up, by the remainder.
half_even_cases :
    (n d : ℕ)
    → ((half_even n d ≡ n / d) × (2 * (n % d) ≤ d) × (2 * (n % d) ≡ d → n / d % 2 ≡ 0))
      ⊎ ((half_even n d ≡ n / d + 1) × (d ≤ 2 * (n % d)) × (2 * (n % d) ≡ d → (n / d + 1) % 2 ≡ 0))
unfolding half_even
half_even_cases n d = ground arith

-- The rounded quotient is nearest, and even if another is as near.
pub half_even_nearest :
    (n d : ℕ)
    → 0 < d
    → (2 * n ≤ 2 * (half_even n d * d) + d)
      × (2 * (half_even n d * d) ≤ 2 * n + d)
      × (2 * n ≡ 2 * (half_even n d * d) + d → half_even n d % 2 ≡ 0)
      × (2 * (half_even n d * d) ≡ 2 * n + d → half_even n d % 2 ≡ 0)
half_even_nearest n d h =
    let r : n % d < d = mod-lt n h in
    let e = div-add-mod n d in
    elim (half_even_cases n d) [
      | inl (down, small, tie) ↦
          rw down (omega arith, omega arith, λ t. tie (omega arith), λ t. absurd (omega arith))
      | inr (up, large, tie) ↦
          rw up (omega arith, omega arith, λ t. absurd (omega arith), λ t. tie (omega arith))
    ]

pub places-quantize : (digits : ℕ) (a : Decimal) → (quantize digits a).places ≡ digits
unfolding quantize
places-quantize digits a = refl

-- With no more places than asked the value is kept.
pub quantize_exact :
    (digits : ℕ) (a : Decimal) → a.places ≤ digits → (quantize digits a).coeff ≡ at digits a
unfolding quantize
quantize_exact digits a h = ground arith

at_places : (s : ℕ) (a : Decimal) → a.places ≡ s → at s a ≡ a.coeff
unfolding shift
at_places s a e = let z : s - a.places ≡ 0 = omega arith in rw z

pub quantize_idem :
    (digits : ℕ) (a : Decimal) → quantize digits (quantize digits a) ≡ quantize digits a
quantize_idem digits a =
    ext (quantize digits (quantize digits a)) (quantize digits a)
      (places-quantize digits (quantize digits a) ∙ sym (places-quantize digits a))
      (quantize_exact digits (quantize digits a) (omega (arith, places-quantize digits a))
        ∙ at_places digits (quantize digits a) (places-quantize digits a))

pub half_even_zero : (d : ℕ) → half_even 0 d ≡ 0
unfolding half_even
half_even_zero d = ground arith

neg_pos : (n : ℕ) → -ℤ◌ (pos (suc n)) ≡ negsuc n
neg_pos n = omega int_laws

neg-negsuc : (n : ℕ) → -ℤ◌ (negsuc n) ≡ pos (suc n)
neg-negsuc n = omega int_laws

neg_zero : -ℤ◌ (pos 0) ≡ pos 0
neg_zero = omega int_laws

-- Rounding treats the two signs alike.
pub round_off_neg : (k : ℕ) (z : ℤ) → round_off k (-ℤ◌ z) ≡ -ℤ◌ (round_off k z)
unfolding round_off
round_off_neg k (pos zero) = rw (neg_zero, half_even_zero (ten_pow k)) (sym neg_zero)
round_off_neg k (pos (suc n)) = rw (neg_pos n) refl
round_off_neg k (negsuc n) = rw (neg-negsuc n) (omega int_laws)

-- So does quantizing.
pub quantize-neg : (digits : ℕ) (a : Decimal) → quantize digits (neg a) ≡ neg (quantize digits a)
unfolding quantize neg
quantize-neg digits a =
    ext (quantize digits (neg a)) (neg (quantize digits a)) refl
      (elim (Bool-cases (leb a.places digits)) [
        | inl fits ↦ rw (fits, shift_neg (digits - a.places) a.coeff) refl
        | inr long ↦ rw (long, round_off_neg (a.places - digits) a.coeff) refl
      ])

-- Between decimals with no more places than that, a rounded difference makes up the difference.
pub eq-add-quantize :
    (digits : ℕ) (a b : Decimal)
    → a.places ≤ digits
    → b.places ≤ digits
    → eq (add b (quantize digits (sub a b))) a ≡ true
unfolding eq sub
eq-add-quantize digits a b ha hb =
    let g = add a (neg b) in
    let q = quantize digits g in
    let pq = places-quantize digits g in
    let pn = places-neg b in
    let pg = places-add a (neg b) in
    let pb = places-add b q in
    let wide : max (add b q).places a.places ≡ digits = omega arith in
    let gap : at digits q ≡ at digits a +ℤ at digits (neg b) =
      at_places digits q pq
      ∙ quantize_exact digits g (omega arith)
      ∙ at-add digits a (neg b) ha (omega arith) in
    let e : at digits (add b q) ≡ at digits a =
      rw (at-add digits b q hb (omega arith), gap, at-neg digits b) (omega int_laws) in
    rw wide (eqb_ℤ_refl (at digits (add b q)) (at digits a) e)
