-- ===== src/Decimal.antt =====
-- Python's `decimal.Decimal`, as far as tulip_core uses it: an integer coefficient over a power of
-- ten, with the number of decimal places kept, as Python keeps the exponent.
-- The exponent is at most zero (`places` is its negation), a zero has no sign, and the arithmetic is
-- exact: Python's default context gives the same as long as a result has at most 28 digits.
pub mod Arithmetic
pub mod Order
pub mod Quantize
use tulip_accounting.Prelude.{
  ℕ, zero, suc, ◌+◌, ◌-◌, ◌*◌, ◌/◌, ◌%◌, max, Bool, not, ltb, leb, ◌==◌, if◌then◌else◌,
}
use tulip_accounting.Prelude.Int.{ℤ, pos, negsuc, ◌+ℤ◌, -ℤ◌, ◌*ℤ◌, times_ten, leb_ℤ, eqb_ℤ}

-- `coeff` · 10 ^ -`places`
pub record Decimal : Type 0 where
  pub coeff : ℤ
  pub places : ℕ

-- `Decimal("0")`
abbrev pub nought : Decimal
nought = record { coeff = pos 0; places = 0 }

-- An integer times a power of ten.
unfoldable pub shift : ℕ → ℤ → ℤ
shift zero z = z
shift (suc k) z = times_ten (shift k z)

-- The coefficient of a decimal written with `s` places, if it has no more than that.
abbrev pub at : ℕ → Decimal → ℤ
at s d = shift (s - d.places) d.coeff

-- The sum has the longer of the two fractions.
unfoldable pub add : Decimal → Decimal → Decimal
add a b = let s = max a.places b.places in record { coeff = at s a +ℤ at s b; places = s }

unfoldable pub neg : Decimal → Decimal
neg a = record { coeff = -ℤ◌ a.coeff; places = a.places }

unfoldable pub sub : Decimal → Decimal → Decimal
unfolding add neg
sub a b = add a (neg b)

unfoldable pub mul : Decimal → Decimal → Decimal
mul a b = record { coeff = a.coeff *ℤ b.coeff; places = a.places + b.places }

-- `a <= b`
unfoldable pub le : Decimal → Decimal → Bool
le a b = let s = max a.places b.places in leb_ℤ (at s a) (at s b)

-- `a == b`, by value: `Decimal("1.0") == Decimal("1")`.
unfoldable pub eq : Decimal → Decimal → Bool
eq a b = let s = max a.places b.places in eqb_ℤ (at s a) (at s b)

-- `a == 0`
abbrev pub is_zero : Decimal → Bool
is_zero a = eqb_ℤ a.coeff (pos 0)

-- `a <= 0`
abbrev pub not_positive : Decimal → Bool
not_positive a = leb_ℤ a.coeff (pos 0)

-- `a < 0`
abbrev pub is_negative : Decimal → Bool
is_negative a = not (leb_ℤ (pos 0) a.coeff)

-- The integer nearest to n / d, and of two that are as near, the even one.
unfoldable pub half_even : ℕ → ℕ → ℕ
half_even n d =
    let q = n / d in
    let twice = 2 * (n % d) in
    if ltb twice d then q else if ltb d twice then q + 1 else if q % 2 == 0 then q else q + 1

unfoldable pub ten_pow : ℕ → ℕ
ten_pow zero = 1
ten_pow (suc k) = 10 * ten_pow k

-- An integer divided by a power of ten, rounded half to even.
unfoldable pub round_off : ℕ → ℤ → ℤ
unfolding half_even ten_pow
round_off k (pos n) = pos (half_even n (ten_pow k))
round_off k (negsuc n) = -ℤ◌ (pos (half_even (suc n) (ten_pow k)))

-- `a.quantize(Decimal(1).scaleb(-digits), rounding=ROUND_HALF_EVEN)`
unfoldable pub quantize : ℕ → Decimal → Decimal
unfolding round_off
quantize digits a =
    let rounded = round_off (a.places - digits) a.coeff in
    record { coeff = if leb a.places digits then at digits a else rounded; places = digits }
