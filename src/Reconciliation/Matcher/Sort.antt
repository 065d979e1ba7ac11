-- ===== src/Reconciliation/Matcher/Sort.antt =====
-- A stable sort by a pair of numbers, as `list.sort` with a tuple for its key: what a stable sort
-- returns does not depend on how it sorts, and this one inserts.
use tulip_accounting.Prelude.{
  ℕ, ◌≡◌, ◌↔◌, arith, Bool, true, ◌&&◌, ◌||◌, List, [], ◌∷◌, ltb, leb, ◌==◌, if◌then◌else◌,
  Bool-cases, inl, inr,
}
use mathlib.Core.List.{Perm}
use mathlib.Core.List.Perm
use tulip_accounting.Prelude.Lists.{At, here, there}

abbrev pub Key : Type 0
Key = ℕ × ℕ

-- Tuples compare by their first difference.
abbrev pub key_le : Key → Key → Bool
key_le (a, b) (c, d) = ltb a c || a == c && leb b d

module _ {ℓ} {A : Type ℓ} where
  swap_At : {a x y : A} {xs : List A} → At a (x ∷ y ∷ xs) → At a (y ∷ x ∷ xs)
  swap_At here = there here
  swap_At (there here) = here
  swap_At (there (there m)) = there (there m)

  At-tail : {a x : A} {xs ys : List A} → (At a xs → At a ys) → At a (x ∷ xs) → At a (x ∷ ys)
  At-tail f here = here
  At-tail f (there m) = there (f m)

module _ {ℓ} {A : Type ℓ} (key : A → Key) where
  -- Before the first element whose key is not smaller.
  pub insert_by : A → List A → List A
  insert_by x [] = x ∷ []
  insert_by x (y ∷ ys) = if key_le (key x) (key y) then x ∷ y ∷ ys else y ∷ insert_by x ys

  unfoldable pub sort_by : List A → List A
  unfolding insert_by
  sort_by [] = []
  sort_by (x ∷ xs) = insert_by x (sort_by xs)

  abbrev pub IsAbove : A → List A → Type 0
  IsAbove x [] = Unit
  IsAbove x (y ∷ ys) = (key_le (key x) (key y) ≡ true) × IsAbove x ys

  abbrev pub IsSorted : List A → Type 0
  IsSorted [] = Unit
  IsSorted (x ∷ xs) = IsAbove x xs × IsSorted xs

  insert_by-perm : (x : A) (xs : List A) → Perm (insert_by x xs) (x ∷ xs)
  unfolding insert_by
  insert_by-perm x [] = Perm.refl (x ∷ [])
  insert_by-perm x (y ∷ ys) = elim (Bool-cases (key_le (key x) (key y))) [
    | inl first ↦ rw first (Perm.refl (x ∷ y ∷ ys))
    | inr later ↦ rw later (Perm.trans (Perm.cons y (insert_by-perm x ys)) (Perm.swap x y ys))
  ]

  -- Sorting only reorders.
  pub sort_by-perm : (xs : List A) → Perm (sort_by xs) xs
  unfolding sort_by
  sort_by-perm [] = Perm.refl []
  sort_by-perm (x ∷ xs) = Perm.trans (insert_by-perm x (sort_by xs)) (Perm.cons x (sort_by-perm xs))

  IsAbove-trans :
      (x y : A) (zs : List A) → key_le (key x) (key y) ≡ true → IsAbove y zs → IsAbove x zs
  IsAbove-trans x y [] h a = tt
  IsAbove-trans x y (z ∷ zs) h (first, rest) = (ground arith, IsAbove-trans x y zs h rest)

  IsAbove-insert_by :
      (x y : A) (ys : List A)
      → key_le (key x) (key y) ≡ true
      → IsAbove x ys
      → IsAbove x (insert_by y ys)
  unfolding insert_by
  IsAbove-insert_by x y [] h a = (h, tt)
  IsAbove-insert_by x y (z ∷ zs) h a = ground (arith, IsAbove-insert_by x y zs h a.1)

  insert_by-IsSorted : (x : A) (xs : List A) → IsSorted xs → IsSorted (insert_by x xs)
  unfolding insert_by
  insert_by-IsSorted x [] s = (tt, tt)
  insert_by-IsSorted x (y ∷ ys) (above, s) = elim (Bool-cases (key_le (key x) (key y))) [
    | inl first ↦ rw first ((first, IsAbove-trans x y ys first above), (above, s))
    | inr later ↦
        rw later (IsAbove-insert_by y x ys (ground arith) above, insert_by-IsSorted x ys s)
  ]

  -- What is sorted is in order.
  pub sort_by-IsSorted : (xs : List A) → IsSorted (sort_by xs)
  unfolding sort_by
  sort_by-IsSorted [] = tt
  sort_by-IsSorted (x ∷ xs) = insert_by-IsSorted x (sort_by xs) (sort_by-IsSorted xs)

  insert_by-At : {a : A} (x : A) (xs : List A) → At a (insert_by x xs) → At a (x ∷ xs)
  unfolding insert_by
  insert_by-At x [] m = m
  insert_by-At {a} x (y ∷ ys) m = elim (Bool-cases (key_le (key x) (key y))) [
    | inl first ↦ rw first at m
    | inr later ↦ swap_At (At-tail (λ n. insert_by-At x ys n) (rw later at m))
  ]

  At-insert_by : {a : A} (x : A) (xs : List A) → At a (x ∷ xs) → At a (insert_by x xs)
  unfolding insert_by
  At-insert_by x [] m = m
  At-insert_by x (y ∷ ys) m = elim (Bool-cases (key_le (key x) (key y))) [
    | inl first ↦ rw first m
    | inr later ↦ rw later (At-tail (λ n. At-insert_by x ys n) (swap_At m))
  ]

  -- The elements are those of the list.
  pub sort_by-At : {a : A} (xs : List A) → At a (sort_by xs) ↔ At a xs
  unfolding sort_by
  sort_by-At [] = (λ m. m, λ m. m)
  sort_by-At (x ∷ xs) =
      let rest = sort_by-At xs in
      (
        λ m. At-tail (λ n. rest.0 n) (insert_by-At x (sort_by xs) m),
        λ m. At-insert_by x (sort_by xs) (At-tail (λ n. rest.1 n) m),
      )
