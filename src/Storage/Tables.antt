-- ===== src/Storage/Tables.antt =====
-- SQL tables as lists of rows: the statements that the repositories execute, and what they leave alone.
use tulip_accounting.Prelude.{
  ◌≡◌, inl, inr, refl, ap, ◌∙◌, subst, arith, Bool, true, false, ◌&&◌, ◌||◌, Option, none, some,
  List, [], ◌∷◌, ◌++◌, if◌then◌else◌, keep, All, Bool-cases,
}

module _ {ℓ} {A : Type ℓ} where
  -- `select(...).where(p)` of at most one row, with `scalar_one_or_none`
  abbrev pub find : (A → Bool) → List A → Option A
  find p [] = none
  find p (x ∷ xs) = if p x then some x else find p xs

  -- `update(...).where(p).values(...)`
  abbrev pub update : (A → Bool) → (A → A) → List A → List A
  update p f [] = []
  update p f (x ∷ xs) = (if p x then f x else x) ∷ update p f xs

  -- `delete(...).where(p)`
  abbrev pub delete : (A → Bool) → List A → List A
  delete p [] = []
  delete p (x ∷ xs) = if p x then delete p xs else x ∷ delete p xs

  -- `EXISTS (SELECT 1 ... WHERE p)`
  abbrev pub exists : (A → Bool) → List A → Bool
  exists p [] = false
  exists p (x ∷ xs) = p x || exists p xs

  pub keep-append : (p : A → Bool) (xs ys : List A) → keep p (xs ++ ys) ≡ keep p xs ++ keep p ys
  keep-append p [] ys = refl
  keep-append p (x ∷ xs) ys = elim (Bool-cases (p x)) [
    | inl hit ↦ rw hit (ap (λ zs. x ∷ zs) (keep-append p xs ys))
    | inr miss ↦ rw miss (keep-append p xs ys)
  ]

  append_nil_rows : (xs : List A) → xs ++ [] ≡ xs
  append_nil_rows [] = refl
  append_nil_rows (x ∷ xs) = ap (λ ys. x ∷ ys) (append_nil_rows xs)

  -- A query does not see a new row that it does not select.
  pub keep-append_other :
      (p : A → Bool) (xs : List A) (x : A) → p x ≡ false → keep p (xs ++ (x ∷ [])) ≡ keep p xs
  keep-append_other p xs x e = keep-append p xs (x ∷ []) ∙ rw e (append_nil_rows (keep p xs))

  -- A query does not see an update of rows that it does not select.
  pub keep-update :
      (q p : A → Bool) (f : A → A) (xs : List A)
      → ((x : A) → p x ≡ true → (q x ≡ false) × (q (f x) ≡ false))
      → keep q (update p f xs) ≡ keep q xs
  keep-update q p f [] h = refl
  keep-update q p f (x ∷ xs) h = elim (Bool-cases (p x)) [
    | inl hit ↦ rw (hit, (h x hit).0, (h x hit).1) (keep-update q p f xs h)
    | inr miss ↦ rw (miss, keep-update q p f xs h) refl
  ]

  pub keep-delete :
      (q p : A → Bool) (xs : List A)
      → ((x : A) → p x ≡ true → q x ≡ false)
      → keep q (delete p xs) ≡ keep q xs
  keep-delete q p [] h = refl
  keep-delete q p (x ∷ xs) h = elim (Bool-cases (p x)) [
    | inl hit ↦ rw (hit, h x hit) (keep-delete q p xs h)
    | inr miss ↦ rw (miss, keep-delete q p xs h) refl
  ]

  pub keep-delete_self : (p : A → Bool) (xs : List A) → keep p (delete p xs) ≡ []
  keep-delete_self p [] = refl
  keep-delete_self p (x ∷ xs) = elim (Bool-cases (p x)) [
    | inl hit ↦ rw hit (keep-delete_self p xs)
    | inr miss ↦ rw (miss, miss) (keep-delete_self p xs)
  ]

  pub find-delete_self : (p : A → Bool) (xs : List A) → find p (delete p xs) ≡ none
  find-delete_self p [] = refl
  find-delete_self p (x ∷ xs) = elim (Bool-cases (p x)) [
    | inl hit ↦ rw hit (find-delete_self p xs)
    | inr miss ↦ rw (miss, miss) (find-delete_self p xs)
  ]

  pub All-rows : (xs : List A) → All {ℓ, 0} (λ x. Unit) xs
  All-rows [] = tt
  All-rows (x ∷ xs) = (tt, All-rows xs)

  -- What is found has what all rows have.
  pub find-All {κ} :
      (P : A → Type κ) (p : A → Bool) (xs : List A) (x : A) → All P xs → find p xs ≡ some x → P x
  find-All P p [] x h e = absurd (cc e)
  find-All P p (y ∷ xs) x (h, hs) e = elim (Bool-cases (p y)) [
    | inl hit ↦ let same : y ≡ x = cc (rw hit at e) in subst P same h
    | inr miss ↦ find-All P p xs x hs (rw miss at e)
  ]

  pub All-update {κ κ'} :
      {P : A → Type κ} {Q : A → Type κ'} (p : A → Bool) (f : A → A) (xs : List A)
      → ((x : A) → P x → p x ≡ true → Q (f x))
      → ((x : A) → P x → p x ≡ false → Q x)
      → All P xs
      → All Q (update p f xs)
  All-update p f [] hit miss h = tt
  All-update {Q} p f (x ∷ xs) hit miss (h, hs) = elim (Bool-cases (p x)) [
    | inl e ↦ (rw e (hit x h e), All-update p f xs hit miss hs)
    | inr e ↦ (rw e (miss x h e), All-update p f xs hit miss hs)
  ]

  pub All-delete {κ κ'} :
      {P : A → Type κ} {Q : A → Type κ'} (p : A → Bool) (xs : List A)
      → ((x : A) → P x → p x ≡ false → Q x)
      → All P xs
      → All Q (delete p xs)
  All-delete p [] miss h = tt
  All-delete p (x ∷ xs) miss (h, hs) = elim (Bool-cases (p x)) [
    | inl e ↦ rw e (All-delete p xs miss hs)
    | inr e ↦ rw e (miss x h e, All-delete p xs miss hs)
  ]

  -- What holds of rows that do not exist.
  pub All-exists {κ κ'} :
      {P : A → Type κ} {Q : A → Type κ'} (p : A → Bool) (xs : List A)
      → exists p xs ≡ false
      → ((x : A) → P x → p x ≡ false → Q x)
      → All P xs
      → All Q xs
  All-exists p [] absent f h = tt
  All-exists p (x ∷ xs) absent f (h, hs) =
      (f x h (ground arith), All-exists p xs (ground arith) f hs)

  pub All-update_safe {κ κ'} :
      {P : A → Type κ} {Q : A → Type κ'} (p bad : A → Bool) (f : A → A) (xs : List A)
      → exists (λ x. p x && bad x) xs ≡ false
      → ((x : A) → P x → p x ≡ true → bad x ≡ false → Q (f x))
      → ((x : A) → P x → p x ≡ false → Q x)
      → All P xs
      → All Q (update p f xs)
  All-update_safe p bad f [] safe hit miss h = tt
  All-update_safe {Q} p bad f (x ∷ xs) safe hit miss (h, hs) =
      let rest = All-update_safe {Q = Q} p bad f xs (ground arith) hit miss hs in
      elim (Bool-cases (p x)) [
        | inl e ↦ (rw e (hit x h e (ground arith)), rest)
        | inr e ↦ (rw e (miss x h e), rest)
      ]

  pub All-map {κ κ'} :
      {P : A → Type κ} {Q : A → Type κ'} (xs : List A) → ((x : A) → P x → Q x) → All P xs → All Q xs
  All-map [] f h = tt
  All-map (x ∷ xs) f (h, hs) = (f x h, All-map xs f hs)

  -- A row that does not exist is none of the rows.
  pub exists-All : (p : A → Bool) (xs : List A) → exists p xs ≡ false → All (λ x. p x ≡ false) xs
  exists-All p [] h = tt
  exists-All p (x ∷ xs) h = (ground arith, exists-All p xs (ground arith))

  pub keep-none : (p : A → Bool) (xs : List A) → exists p xs ≡ false → keep p xs ≡ []
  keep-none p [] h = refl
  keep-none p (x ∷ xs) h = ground (arith, keep-none p xs)

  pub find-none : (p : A → Bool) (xs : List A) → exists p xs ≡ false → find p xs ≡ none
  find-none p [] h = refl
  find-none p (x ∷ xs) h = ground (arith, find-none p xs)

  pub find_sound : (p : A → Bool) (xs : List A) (x : A) → find p xs ≡ some x → p x ≡ true
  find_sound p [] x h = absurd (cc)
  find_sound p (y ∷ xs) x h = elim (Bool-cases (p y)) [
    | inl hit ↦ subst (λ o. elim o [ none ↦ Unit | some z ↦ p z ≡ true ]) (rw hit at h) hit
    | inr miss ↦ find_sound p xs x (rw miss at h)
  ]

  -- An update that keeps the key changes what is found under it just so.
  pub find-update :
      (p : A → Bool) (f : A → A) (xs : List A) (x : A)
      → ((y : A) → p y ≡ true → p (f y) ≡ true)
      → find p xs ≡ some x
      → find p (update p f xs) ≡ some (f x)
  find-update p f [] x keeps e = absurd (cc)
  find-update p f (y ∷ xs) x keeps e = elim (Bool-cases (p y)) [
    | inl hit ↦
        rw (hit, keeps y hit) (ap (λ o. elim o [ none ↦ none | some z ↦ some (f z) ]) (rw hit at e))
    | inr miss ↦ rw (miss, miss) (find-update p f xs x keeps (rw miss at e))
  ]

  -- A row added under a key that was free is the one that is found, and the one that is updated.
  pub find-append_new :
      (p : A → Bool) (xs : List A) (x : A)
      → exists p xs ≡ false
      → p x ≡ true
      → find p (xs ++ (x ∷ [])) ≡ some x
  find-append_new p [] x free own = rw own refl
  find-append_new p (y ∷ xs) x free own =
      let miss : p y ≡ false = ground arith in rw miss (find-append_new p xs x (ground arith) own)

  pub update-append_new :
      (p : A → Bool) (f : A → A) (xs : List A) (x : A)
      → exists p xs ≡ false
      → p x ≡ true
      → update p f (xs ++ (x ∷ [])) ≡ xs ++ (f x ∷ [])
  update-append_new p f [] x free own = rw own refl
  update-append_new p f (y ∷ xs) x free own =
      let miss : p y ≡ false = ground arith in
      rw miss (ap (λ zs. y ∷ zs) (update-append_new p f xs x (ground arith) own))

  pub exists-append_other :
      (p : A → Bool) (xs : List A) (x : A)
      → exists p xs ≡ false
      → p x ≡ false
      → exists p (xs ++ (x ∷ [])) ≡ false
  exists-append_other p [] x free other = rw other refl
  exists-append_other p (y ∷ xs) x free other =
      ground (arith, exists-append_other p xs x (ground arith) other)

  pub find-append :
      (p : A → Bool) (xs ys : List A) (x : A) → find p xs ≡ some x → find p (xs ++ ys) ≡ some x
  find-append p [] ys x e = absurd (cc)
  find-append p (y ∷ xs) ys x e = elim (Bool-cases (p y)) [
    | inl hit ↦ rw hit (rw hit at e)
    | inr miss ↦ rw miss (find-append p xs ys x (rw miss at e))
  ]

  -- A row that is found and not deleted is found still.
  pub find-delete_kept :
      (p q : A → Bool) (xs : List A) (x : A)
      → find p xs ≡ some x
      → q x ≡ false
      → find p (delete q xs) ≡ some x
  find-delete_kept p q [] x e kept = absurd (cc)
  find-delete_kept p q (y ∷ xs) x e kept = elim (Bool-cases (p y)) [
    | inl hit ↦
        let same : y ≡ x = cc (rw hit at e) in
        let stays : q y ≡ false = rw same kept in rw (stays, hit) (ap some same)
    | inr miss ↦
        let rest = find-delete_kept p q xs x (rw miss at e) kept in
        elim (Bool-cases (q y)) [ inl gone ↦ rw gone rest | inr stays ↦ rw (stays, miss) rest ]
  ]

  -- A row that is found is among those that a query keeps.
  pub find-exists :
      (p q w : A → Bool) (xs : List A) (x : A)
      → find p xs ≡ some x
      → q x ≡ true
      → w x ≡ true
      → exists w (keep q xs) ≡ true
  find-exists p q w [] x e kept holds = absurd (cc)
  find-exists p q w (y ∷ xs) x e kept holds = elim (Bool-cases (p y)) [
    | inl hit ↦
        let same : y ≡ x = cc (rw hit at e) in
        let own : q y ≡ true = rw same kept in
        let its : w y ≡ true = rw same holds in rw (own, its) refl
    | inr miss ↦
        let rest = find-exists p q w xs x (rw miss at e) kept holds in
        elim (Bool-cases (q y)) [ inl own ↦ rw own (ground arith) | inr other ↦ rw other rest ]
  ]

  -- A row that is found exists.
  pub found-exists :
      (p q : A → Bool) (xs : List A) (x : A) → find p xs ≡ some x → q x ≡ true → exists q xs ≡ true
  found-exists p q [] x e holds = absurd (cc)
  found-exists p q (y ∷ xs) x e holds = elim (Bool-cases (p y)) [
    | inl hit ↦
        let same : y ≡ x = cc (rw hit at e) in let its : q y ≡ true = rw same holds in rw its refl
    | inr miss ↦ let rest = found-exists p q xs x (rw miss at e) holds in ground arith
  ]

  -- What is found has no property that no row has.
  pub find-absent :
      (p q : A → Bool) (xs : List A) (x : A)
      → find p xs ≡ some x
      → exists q xs ≡ false
      → q x ≡ false
  find-absent p q [] x e none_has = absurd (cc)
  find-absent p q (y ∷ xs) x e none_has = elim (Bool-cases (p y)) [
    | inl hit ↦
        let same : y ≡ x = cc (rw hit at e) in
        let its : q y ≡ false = ground arith in subst (λ z. q z ≡ false) same its
    | inr miss ↦ find-absent p q xs x (rw miss at e) (ground arith)
  ]
