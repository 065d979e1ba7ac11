-- ===== src/Insights/Windows.antt =====
-- The loop of `find_anomalies` against the ways of cutting the series at a sample and its window.
use tulip_accounting.Prelude.{
  ℕ, zero, suc, ◌+◌, ◌-◌, ◌≤◌, ◌<◌, ◌≡◌, ◌↔◌, inl, inr, refl, sym, ap, ◌∙◌, subst, arith,
  Option-cases, none, some, false, List, [], ◌∷◌, ◌++◌, length, length-append, ltb, leb, Bool-cases,
  if◌then◌else◌,
}
use tulip_accounting.Prelude.Lists.{At, here, there, At-cons}
use tulip_accounting.Prelude.Results.{ok}
use tulip_accounting.Decimal.{Decimal}
use mathlib.Core.List.{append_assoc}
use tulip_accounting.Insights.{
  Sample, Anomaly, get_elem?, take, drop, slice, judge, turn, turns, find_anomalies,
}

not_some : {a : Anomaly} → none ≡ some a → ⊥
not_some h = absurd (cc)

zero_right : (xs : List Sample) → length xs + 0 ≡ length xs
zero_right xs = omega arith

cut_at :
    (xs : List Sample) (i : ℕ) {x : Sample}
    → get_elem? xs i ≡ some x
    → (xs ≡ take i xs ++ (x ∷ drop (suc i) xs)) × (length (take i xs) ≡ i)
cut_at [] i h = absurd (cc)
cut_at (y ∷ xs) zero h = (ap (λ e. elim e [ none ↦ y ∷ xs | some z ↦ z ∷ xs ]) h, refl)
cut_at (y ∷ xs) (suc i) h = let r = cut_at xs i h in (ap (λ zs. y ∷ zs) r.0, ap (λ m. suc m) r.1)

take_nil : (m : ℕ) → take m [] ≡ []
take_nil zero = refl
take_nil (suc m) = refl

take_split : (xs : List Sample) (k m : ℕ) → take (k + m) xs ≡ take k xs ++ take m (drop k xs)
take_split xs zero m = let e : 0 + m ≡ m = omega arith in ap (λ j. take j xs) e
take_split [] (suc k) m = rw (take_nil (suc k + m), take_nil m) refl
take_split (x ∷ xs) (suc k) m =
    let e : suc k + m ≡ suc (k + m) = omega arith in
    ap (λ j. take j (x ∷ xs)) e ∙ ap (λ zs. x ∷ zs) (take_split xs k m)

length-take_le : (xs : List Sample) (i : ℕ) → length (take i xs) ≤ i
length-take_le xs zero = omega arith
length-take_le [] (suc i) = omega arith
length-take_le (x ∷ xs) (suc i) = let h = length-take_le xs i in omega arith

drop-append : (xs ys : List Sample) → drop (length xs) (xs ++ ys) ≡ ys
drop-append [] ys = refl
drop-append (x ∷ xs) ys = drop-append xs ys

take-append : (xs ys : List Sample) → take (length xs) (xs ++ ys) ≡ xs
take-append [] ys = refl
take-append (x ∷ xs) ys = ap (λ zs. x ∷ zs) (take-append xs ys)

get_elem-append :
    (xs ys : List Sample) (i : ℕ) → get_elem? (xs ++ ys) (length xs + i) ≡ get_elem? ys i
get_elem-append [] ys i = let e : 0 + i ≡ i = omega arith in ap (λ j. get_elem? ys j) e
get_elem-append (x ∷ xs) ys i =
    let e : suc (length xs) + i ≡ suc (length xs + i) = omega arith in
    ap (λ j. get_elem? (x ∷ (xs ++ ys)) j) e ∙ get_elem-append xs ys i

get_elem_inside : (xs : List Sample) (i : ℕ) {x : Sample} → get_elem? xs i ≡ some x → i < length xs
get_elem_inside [] i h = absurd (cc)
get_elem_inside (y ∷ xs) zero h = omega arith
get_elem_inside (y ∷ xs) (suc i) h = let r = get_elem_inside xs i h in omega arith

-- The samples of a slice that ends at an index before a sample.
length-slice :
    (xs : List Sample) (i n : ℕ) {x : Sample}
    → n ≤ i
    → get_elem? xs i ≡ some x
    → (take i xs ≡ take (i - n) xs ++ slice (i - n) i xs) × (length (slice (i - n) i xs) ≡ n)
length-slice xs i n le h =
    let k = i - n in
    let whole : k + (i - k) ≡ i = omega arith in
    let split : take i xs ≡ take k xs ++ slice k i xs =
      subst (λ j. take j xs ≡ take k xs ++ slice k i xs) whole (take_split xs k (i - k)) in
    let own = (cut_at xs i h).1 in
    let sum = length-append (take k xs) (slice k i xs) in
    let joined : length (take k xs ++ slice k i xs) ≡ i = sym (ap length split) ∙ own in
    let below = length-take_le xs k in
    let above = length-take_le (drop k xs) (i - k) in (split, omega arith)

module _ (div : Decimal → Decimal → Decimal) (sqrt : Decimal → Decimal) where
  -- A way to cut the series at a sample behind a window of n samples, against which it is the anomaly.
  abbrev pub IsAnomalyIn : ℕ → Decimal → List Sample → Anomaly → Type 0
  IsAnomalyIn n t series a =
      (before : List Sample) × (window : List Sample) × (x : Sample) × (after : List Sample)
      × (series ≡ before ++ (window ++ (x ∷ after)))
      × (length window ≡ n)
      × (judge div sqrt t window x ≡ some a)

  turn_iff :
      (n : ℕ) (t : Decimal) (series : List Sample) (i : ℕ) (a : Anomaly)
      → turn div sqrt n t series i ≡ some a
      → (x : Sample) × (get_elem? series i ≡ some x)
        × (judge div sqrt t (slice (i - n) i series) x ≡ some a)
  turn_iff n t series i a h = elim (Option-cases (get_elem? series i)) [
    | inl e ↦ absurd (cc)
    | inr (x, e) ↦ (x, e, rw (turn, e) at h)
  ]

  turn-IsAnomalyIn :
      (n : ℕ) (t : Decimal) (series : List Sample) (i : ℕ) (a : Anomaly)
      → n ≤ i
      → turn div sqrt n t series i ≡ some a
      → IsAnomalyIn n t series a
  turn-IsAnomalyIn n t series i a le h =
      let r = turn_iff n t series i a h in
      let x = r.0 in
      let s = length-slice series i n le r.1 in
      let w = slice (i - n) i series in
      let cut = (cut_at series i r.1).0 in
      (
        take (i - n) series,
        w,
        x,
        drop (suc i) series,
        cut
            ∙ ap (λ zs. zs ++ (x ∷ drop (suc i) series)) s.0
            ∙ append_assoc (take (i - n) series) w (x ∷ drop (suc i) series),
        s.1,
        r.2,
      )

  turn_cut :
      (n : ℕ) (t : Decimal) (series : List Sample) (a : Anomaly)
      → IsAnomalyIn n t series a
      → (i : ℕ) × (n ≤ i) × (i < length series) × (turn div sqrt n t series i ≡ some a)
  turn_cut n t series a (before, w, x, after, e, m, h) =
      let i = length before + n in
      let at_i : get_elem? series i ≡ some x =
        rw (e, get_elem-append before (w ++ (x ∷ after)) n)
          (subst (λ j. get_elem? (w ++ (x ∷ after)) j ≡ some x) (zero_right w ∙ m)
            (get_elem-append w (x ∷ after) 0)) in
      let start : i - n ≡ length before = omega arith in
      let size : i - length before ≡ length w = omega arith in
      let window : slice (i - n) i series ≡ w =
        rw (start, size, e, drop-append before (w ++ (x ∷ after))) (take-append w (x ∷ after)) in
      (i, omega arith, get_elem_inside series i at_i, rw (turn, at_i, window) h)

  -- The turns of the loop are those at the indices of its range.
  turns_iff :
      (n : ℕ) (t : Decimal) (series : List Sample) (i rounds : ℕ) (a : Anomaly)
      → (At a (turns div sqrt n t series i rounds)
          → (j : ℕ) × (i ≤ j) × (j < i + rounds) × (turn div sqrt n t series j ≡ some a))
        × ((j : ℕ)
            → i ≤ j
            → j < i + rounds
            → turn div sqrt n t series j ≡ some a
            → At a (turns div sqrt n t series i rounds))
  unfolding turns
  turns_iff n t series i zero a = (λ m. elim m [ ], λ j l u h. absurd (omega arith))
  turns_iff n t series i (suc rounds) a =
      let rest = turns_iff n t series (i + 1) rounds a in
      elim (Option-cases (turn div sqrt n t series i)) [
        | inl e ↦ (
          λ m. let r = rest.0 (rw (turns, e) at m) in (r.0, omega arith, omega arith, r.3),
          λ j l u h. elim (Bool-cases (ltb i j)) [
            | inl later ↦ rw (turns, e) (rest.1 j (ground arith) (omega arith) h)
            | inr now ↦
                let same : j ≡ i = ground arith in
                absurd (not_some (sym e ∙ subst (λ k. turn div sqrt n t series k ≡ some a) same h))
          ],
        )
        | inr (b, e) ↦ (
          λ m. elim (At-cons (rw (turns, e) at m)) [
            | inl p ↦ (i, omega arith, omega arith, e ∙ ap some (sym p))
            | inr q ↦ let r = rest.0 q in (r.0, omega arith, omega arith, r.3)
          ],
          λ j l u h. elim (Bool-cases (ltb i j)) [
            | inl later ↦ rw (turns, e) (there (rest.1 j (ground arith) (omega arith) h))
            | inr now ↦
                let same : j ≡ i = ground arith in
                rw (turns, (subst (λ k. turn div sqrt n t series k ≡ some a) same h)) here
          ],
        )
      ]

  found : ℕ → Decimal → List Sample → List Anomaly
  found n t series =
      if leb (length series) n then [] else turns div sqrt n t series n (length series - n)

  found_iff :
      (n : ℕ) (t : Decimal) (series : List Sample) (a : Anomaly)
      → At a (found n t series) ↔ IsAnomalyIn n t series a
  unfolding found
  found_iff n t series a = elim (Bool-cases (leb (length series) n)) [
    | inl short ↦ (
      λ m. elim (rw short at m) [ ],
      λ cut. let r = turn_cut n t series a cut in absurd (ground arith),
    )
    | inr long ↦
        let all = turns_iff n t series n (length series - n) a in
        let more : n < length series = ground arith in
        (
          λ m. let r = all.0 (rw long at m) in turn-IsAnomalyIn n t series r.0 a r.1 r.3,
          λ cut. let r = turn_cut n t series a cut in rw long (all.1 r.0 r.1 (omega arith) r.3),
        )
  ]

  -- With a window of more than one sample nothing is raised, and an anomaly is found exactly if the
  -- series can be cut at a sample behind a window of that size against which the sample is that
  -- anomaly; no such sample is passed over.
  pub find_anomalies_iff :
      (series : List Sample) (n : ℕ) (t : Decimal)
      → 1 < n
      → (anomalies : List Anomaly) × (find_anomalies div sqrt series n t ≡ ok anomalies)
        × ((a : Anomaly) → At a anomalies ↔ IsAnomalyIn n t series a)
  unfolding find_anomalies found
  find_anomalies_iff series n t big =
      let allowed : leb n 1 ≡ false = ground arith in
      (found n t series, rw allowed refl, λ a. found_iff n t series a)
