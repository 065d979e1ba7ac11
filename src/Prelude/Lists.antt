-- ===== src/Prelude/Lists.antt =====
-- Lists over the native numbers: lengths, membership as a family of positions, and predicates.
use Prim.Native.Nat.{ℕ, suc, ◌+◌}
use mathlib.Core.Path.{◌≡◌, refl, ap}
use mathlib.Core.Logic.{◌⊎◌, inl, inr}
use mathlib.Core.Bool.{Bool, true, ◌&&◌}
use mathlib.Core.Option.{Option, none, some}
use mathlib.Core.List.{List, [], ◌∷◌, ◌++◌, map}
use native.Mathlib.Omega.{arith}
use tulip_accounting.Prelude.Tests.{if◌then◌else◌}

module _ {ℓ} {A : Type ℓ} where
  abbrev pub length : List A → ℕ
  length [] = 0
  length (x ∷ xs) = suc (length xs)

  pub length-append : (xs ys : List A) → length (xs ++ ys) ≡ length xs + length ys
  length-append [] ys = omega arith
  length-append (x ∷ xs) ys = omega (arith, length-append xs ys)

  -- A list comprehension's `if`.
  abbrev pub keep : (A → Bool) → List A → List A
  keep p [] = []
  keep p (x ∷ xs) = if p x then x ∷ keep p xs else keep p xs

  -- Python's `all(p(x) for x in xs)`.
  abbrev pub all_of : (A → Bool) → List A → Bool
  all_of p [] = true
  all_of p (x ∷ xs) = p x && all_of p xs

  abbrev pub head? : List A → Option A
  head? [] = none
  head? (x ∷ xs) = some x

  abbrev pub All {κ} : (A → Type κ) → List A → Type κ
  All P [] = Unit
  All P (x ∷ xs) = P x × All P xs

  pub All-append {κ} : (P : A → Type κ) (xs ys : List A) → All P xs → All P ys → All P (xs ++ ys)
  All-append P [] ys p q = q
  All-append P (x ∷ xs) ys (p, ps) q = (p, All-append P xs ys ps q)

  -- Where an element stands in a list.
  pub data At (a : A) : List A → Type ℓ where
    here : {xs : List A} → At a (a ∷ xs)
    there : {x : A} {xs : List A} → At a xs → At a (x ∷ xs)

  pub At-cons : {a x : A} {xs : List A} → At a (x ∷ xs) → (a ≡ x) ⊎ At a xs
  At-cons here = inl refl
  At-cons (there m) = inr m

  pub At-append : {a : A} (xs : List A) {ys : List A} → At a (xs ++ ys) → At a xs ⊎ At a ys
  At-append [] m = inr m
  At-append (x ∷ xs) here = inl here
  At-append (x ∷ xs) (there m) = elim (At-append xs m) [ inl n ↦ inl (there n) | inr n ↦ inr n ]

  pub At-append_left : {a : A} {xs : List A} (ys : List A) → At a xs → At a (xs ++ ys)
  At-append_left ys here = here
  At-append_left ys (there m) = there (At-append_left ys m)

  pub At-append_right : {a : A} (xs : List A) {ys : List A} → At a ys → At a (xs ++ ys)
  At-append_right [] m = m
  At-append_right (x ∷ xs) m = there (At-append_right xs m)

  pub All-At {κ} : (P : A → Type κ) {a : A} {xs : List A} → At a xs → All P xs → P a
  All-At P here (p, ps) = p
  All-At P (there m) (p, ps) = All-At P m ps

  pub all_of-At : {a : A} {xs : List A} (p : A → Bool) → At a xs → all_of p xs ≡ true → p a ≡ true
  all_of-At p here h = ground arith
  all_of-At p (there m) h = all_of-At p m (ground arith)

module _ {ℓ κ} {A : Type ℓ} {B : Type κ} where
  pub length-map : (f : A → B) (xs : List A) → length (map f xs) ≡ length xs
  length-map f [] = refl
  length-map f (x ∷ xs) = ap suc (length-map f xs)

  pub At-map : {a : A} {xs : List A} (f : A → B) → At a xs → At (f a) (map f xs)
  At-map f here = here
  At-map f (there m) = there (At-map f m)
