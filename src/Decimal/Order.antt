-- ===== src/Decimal/Order.antt =====
-- The order of decimals by value, read at any sufficient number of places.
use native.Mathlib.Nat.{le_refl, mul-le-mul}
use tulip_accounting.Prelude.{
  ℕ, zero, suc, ◌+◌, ◌-◌, ◌*◌, ◌≤◌, max, ◌≡◌, ◌↔◌, refl, sym, ap, ◌∙◌, arith, not, true, false,
}
use tulip_accounting.Prelude.Int.{
  ℤ, pos, negsuc, -ℤ◌, ◌*ℤ◌, ◌≤ℤ◌, leb_ℤ, eqb_ℤ, int_laws, +ℤ_parts, -ℤ_parts,
}
use tulip_accounting.Decimal.{
  Decimal, nought, shift, at, add, sub, neg, mul, le, eq, not_positive, is_negative, ten_pow,
}
use tulip_accounting.Decimal.Arithmetic.{at-add, at-neg, places-add, shift_neg, shift_nought}

-- The order at a common number of places, as a proposition.
abbrev pub ◌≼◌ : Decimal → Decimal → Type 0
◌≼◌ a b = let s = max a.places b.places in at s a ≤ℤ at s b

pub le_iff : (a b : Decimal) → (le a b ≡ true) ↔ ◌≼◌ a b
unfolding le
le_iff a b = ground arith

-- The difference a - b is not positive exactly when a ≤ b.
pub not_positive-sub : (a b : Decimal) → not_positive (sub a b) ≡ le a b
unfolding sub le neg add
not_positive-sub a b =
    let s = max a.places b.places in
    let e = shift_neg (s - b.places) b.coeff in
    rw e (ground (arith, +ℤ_parts (at s a) (-ℤ◌ (at s b)), -ℤ_parts (at s b)))

pub places-neg : (a : Decimal) → (neg a).places ≡ a.places
unfolding neg
places-neg a = refl

pub eqb_ℤ_refl : (a b : ℤ) → a ≡ b → eqb_ℤ a b ≡ true
eqb_ℤ_refl a b e = rw e (ground arith)

-- b + (a - b) has the value of a.
pub eq-add-sub : (a b : Decimal) → eq (add b (sub a b)) a ≡ true
unfolding eq sub
eq-add-sub a b =
    let g = add a (neg b) in
    let s = max (add b g).places a.places in
    let pn = places-neg b in
    let pg = places-add a (neg b) in
    let pb = places-add b g in
    let total = at-add s b g (omega arith) (omega arith) in
    let diff = at-add s a (neg b) (omega arith) (omega arith) in
    let e : at s (add b g) ≡ at s a = rw (total, diff, at-neg s b) (omega int_laws) in
    eqb_ℤ_refl (at s (add b g)) (at s a) e

shift_pos : (k n : ℕ) → shift k (pos n) ≡ pos (n * ten_pow k)
unfolding shift ten_pow
shift_pos zero n = ap pos (omega arith)
shift_pos (suc k) n = rw (shift_pos k n) (omega int_laws)

-- A decimal against a whole number, without its own shift.
le_whole :
    (c : ℤ) (j n : ℕ)
    → le (record { coeff = c; places = j }) (record { coeff = pos n; places = 0 })
      ≡ leb_ℤ c (pos (n * ten_pow j))
unfolding le shift
le_whole c j n =
    let e : max j 0 ≡ j = omega arith in
    let z : j - j ≡ 0 = omega arith in
    let w : j - 0 ≡ j = omega arith in rw (e, z, w, shift_pos j n) refl

-- Where a decimal stands against another with fewer places.
le_finer :
    (c d : ℤ) (i j : ℕ)
    → le (record { coeff = c; places = i + j }) (record { coeff = d; places = i })
      ≡ leb_ℤ c (shift j d)
unfolding le shift
le_finer c d i j =
    let e : max (i + j) i ≡ i + j = omega arith in
    let z : i + j - (i + j) ≡ 0 = omega arith in
    let w : i + j - i ≡ j = omega arith in rw (e, z, w) refl

mul_pos : (n m : ℕ) → pos n *ℤ pos m ≡ pos (n * m)
unfolding ◌*ℤ◌
mul_pos n m = ground arith

mul_le :
    (c d : ℤ) (i j : ℕ)
    → leb_ℤ c (pos 0) ≡ false
    → leb_ℤ d (pos (0 * ten_pow j)) ≡ false
    → leb_ℤ d (pos (1 * ten_pow j)) ≡ true
    → (not (leb_ℤ (pos 0) (c *ℤ d)) ≡ false) × (leb_ℤ (c *ℤ d) (shift j c) ≡ true)
mul_le (pos n) (pos m) i j hc hd h1 =
    let small : m ≤ ten_pow j = ground arith in
    let bound : n * m ≤ n * ten_pow j = mul-le-mul (le_refl n) small in
    rw (mul_pos n m, shift_pos j n) (ground arith, ground arith)
mul_le (negsuc n) d i j hc hd h1 = absurd (ground arith)
mul_le (pos n) (negsuc m) i j hc hd h1 = absurd (ground arith)

-- A positive amount times a fraction of at most one is at least nought, and at most the amount.
pub mul-le :
    (a p : Decimal)
    → not_positive a ≡ false
    → le p nought ≡ false
    → le p (record { coeff = pos 1; places = 0 }) ≡ true
    → (is_negative (mul a p) ≡ false) × (le (mul a p) a ≡ true)
unfolding mul
mul-le a p ha hp h1 =
    let (low, high) =
      mul_le a.coeff p.coeff a.places p.places ha (sym (le_whole p.coeff p.places 0) ∙ hp)
        (sym (le_whole p.coeff p.places 1) ∙ h1) in
    (low, le_finer (a.coeff *ℤ p.coeff) a.coeff a.places p.places ∙ high)

pub nought-le : (a : Decimal) → not_positive a ≡ false → le nought a ≡ true
unfolding le shift
nought-le a h =
    let e : max 0 a.places ≡ a.places = omega arith in
    let z : a.places - a.places ≡ 0 = omega arith in
    rw (e, z, shift_nought (a.places - 0)) (ground arith)

-- What has the same value is not above.
pub eq-le : (a b : Decimal) → eq a b ≡ true → le b a ≡ true
unfolding eq le
eq-le a b e =
    let s : max b.places a.places ≡ max a.places b.places = omega arith in rw s (ground arith)
