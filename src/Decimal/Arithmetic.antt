-- ===== src/Decimal/Arithmetic.antt =====
-- The sum of decimals is a commutative monoid with `nought`, the fraction's length included, and the
-- negation distributes over it. Every fact is read at a common number of places.
use tulip_accounting.Prelude.{
  ℕ, zero, suc, ◌+◌, ◌-◌, ◌≤◌, max, ◌≡◌, refl, ap, ◌∙◌, sym, arith, true, ◌↔◌,
}
use tulip_accounting.Prelude.Int.{
  ℤ, pos, pos_part, neg_part, ◌+ℤ◌, -ℤ◌, times_ten, int_laws, +ℤ_comm, +ℤ_assoc, -ℤ_distrib, +ℤ_neg,
  eq_of_parts,
}
use tulip_accounting.Decimal.{Decimal, nought, shift, at, add, neg, is_zero}

pub shift_+ℤ : (k : ℕ) (a b : ℤ) → shift k (a +ℤ b) ≡ shift k a +ℤ shift k b
unfolding shift
shift_+ℤ zero a b = refl
shift_+ℤ (suc k) a b = rw (shift_+ℤ k a b) (omega int_laws)

pub shift_neg : (k : ℕ) (a : ℤ) → shift k (-ℤ◌ a) ≡ -ℤ◌ (shift k a)
unfolding shift
shift_neg zero a = refl
shift_neg (suc k) a = rw (shift_neg k a) (omega int_laws)

pub shift-shift : (j k : ℕ) (a : ℤ) → shift j (shift k a) ≡ shift (j + k) a
unfolding shift
shift-shift zero k a = ap (λ n. shift n a) (omega arith)
shift-shift (suc j) k a =
    ap times_ten (shift-shift j k a)
    ∙ ap (λ n. shift n a) (let e : suc (j + k) ≡ suc j + k = omega arith in e)

pub shift_nought : (k : ℕ) → shift k (pos 0) ≡ pos 0
unfolding shift
shift_nought zero = refl
shift_nought (suc k) = rw (shift_nought k) (omega int_laws)

-- A shifted integer is zero exactly when the integer is.
pub shift_eq_nought : (k : ℕ) (a : ℤ) → shift k a ≡ pos 0 → a ≡ pos 0
unfolding shift
shift_eq_nought zero a e = e
shift_eq_nought (suc k) a e = shift_eq_nought k a (omega (int_laws, ap pos_part e, ap neg_part e))

-- Two decimals with as many places and the same coefficient are one.
pub ext : (a b : Decimal) → a.places ≡ b.places → a.coeff ≡ b.coeff → a ≡ b
ext a b p c = λ i. record { coeff = c i; places = p i }

-- A sum at enough places is the sum of the parts there.
pub at-add :
    (s : ℕ) (a b : Decimal) → a.places ≤ s → b.places ≤ s → at s (add a b) ≡ at s a +ℤ at s b
unfolding add
at-add s a b ha hb =
    let m = max a.places b.places in
    let ea : s - m + (m - a.places) ≡ s - a.places = omega arith in
    let eb : s - m + (m - b.places) ≡ s - b.places = omega arith in
    rw (
      shift_+ℤ (s - m) (at m a) (at m b),
      shift-shift (s - m) (m - a.places) a.coeff,
      shift-shift (s - m) (m - b.places) b.coeff,
      ea,
      eb,
    )

pub at-neg : (s : ℕ) (a : Decimal) → at s (neg a) ≡ -ℤ◌ (at s a)
unfolding neg
at-neg s a = shift_neg (s - a.places) a.coeff

at_self : (a : Decimal) → at a.places a ≡ a.coeff
unfolding shift
at_self a = let e : a.places - a.places ≡ 0 = omega arith in rw e

-- Decimals with as many places are equal when their coefficients at that many places are.
pub ext_at : (s : ℕ) (a b : Decimal) → a.places ≡ s → b.places ≡ s → at s a ≡ at s b → a ≡ b
ext_at s a b p q e =
    ext a b (p ∙ sym q)
      (sym (at_self a) ∙ ap (λ n. at n a) p ∙ e ∙ ap (λ n. at n b) (sym q) ∙ at_self b)

pub places-add : (a b : Decimal) → (add a b).places ≡ max a.places b.places
unfolding add
places-add a b = refl

pub add_comm : (a b : Decimal) → add a b ≡ add b a
add_comm a b =
    let s = max a.places b.places in
    ext_at s (add a b) (add b a) (places-add a b) (places-add b a ∙ omega arith) (
      at-add s a b (omega arith) (omega arith)
      ∙ +ℤ_comm (at s a) (at s b)
      ∙ sym (at-add s b a (omega arith) (omega arith)))

pub add_assoc : (a b c : Decimal) → add (add a b) c ≡ add a (add b c)
add_assoc a b c =
    let s = max a.places (max b.places c.places) in
    let ab = places-add a b in
    let bc = places-add b c in
    let abc = places-add (add a b) c in
    let abc' = places-add a (add b c) in
    ext_at s (add (add a b) c) (add a (add b c)) (omega arith) (omega arith) (
      rw
        (
          at-add s (add a b) c (omega arith) (omega arith),
          at-add s a b (omega arith) (omega arith),
          at-add s a (add b c) (omega arith) (omega arith),
          at-add s b c (omega arith) (omega arith),
        )
        (+ℤ_assoc (at s a) (at s b) (at s c)))

pub nought-add : (a : Decimal) → add nought a ≡ a
nought-add a =
    let s = a.places in
    ext_at s (add nought a) a (places-add nought a ∙ omega arith) refl
      (at-add s nought a (omega arith) (omega arith) ∙ rw (shift_nought (s - 0)) (omega int_laws))

pub neg-add : (a b : Decimal) → neg (add a b) ≡ add (neg a) (neg b)
unfolding neg add
neg-add a b =
    let s = max a.places b.places in
    ext (neg (add a b)) (add (neg a) (neg b)) refl (
      -ℤ_distrib (at s a) (at s b)
      ∙ rw (shift_neg (s - a.places) a.coeff, shift_neg (s - b.places) b.coeff))

pub neg-neg : (a : Decimal) → neg (neg a) ≡ a
unfolding neg
neg-neg a = ext (neg (neg a)) a refl (omega int_laws)

pub neg_nought : neg nought ≡ nought
unfolding neg
neg_nought = ext (neg nought) nought refl (omega int_laws)

-- A decimal and its negation sum to a zero.
pub add-neg_self : (a : Decimal) → (add a (neg a)).coeff ≡ pos 0
unfolding add neg
add-neg_self a =
    let s = max a.places a.places in rw (shift_neg (s - a.places) a.coeff, +ℤ_neg (at s a))

pub is_zero_iff : (a : Decimal) → (is_zero a ≡ true) ↔ (a.coeff ≡ pos 0)
is_zero_iff a = (λ h. eq_of_parts a.coeff (pos 0) (ground arith), λ h. rw h)

pub add_zeros : (a b : Decimal) → a.coeff ≡ pos 0 → b.coeff ≡ pos 0 → (add a b).coeff ≡ pos 0
unfolding add
add_zeros a b p q =
    let s = max a.places b.places in
    rw (p, q, shift_nought (s - a.places), shift_nought (s - b.places)) (omega int_laws)

pub neg_zero : (a : Decimal) → a.coeff ≡ pos 0 → (neg a).coeff ≡ pos 0
unfolding neg
neg_zero a p = omega (int_laws, ap pos_part p, ap neg_part p)

-- A zero added on the left leaves the value.
pub zero-add_zero : (a b : Decimal) → a.coeff ≡ pos 0 → (add a b).coeff ≡ pos 0 → b.coeff ≡ pos 0
unfolding add
zero-add_zero a b p q =
    let s = max a.places b.places in
    let za : at s a ≡ pos 0 = rw p (shift_nought (s - a.places)) in
    shift_eq_nought (s - b.places) b.coeff
      (omega (int_laws, ap pos_part za, ap neg_part za, ap pos_part q, ap neg_part q))
