-- ===== src/Storage/Budget/Shadow/Entries.antt =====
-- The two tables as one list of entries, and how the statements of a save change it.
use tulip_accounting.Prelude.{
  ◌≡◌, inl, inr, refl, ap, sym, ◌∙◌, arith, Bool, true, false, ◌&&◌, ◌||◌, ◌==◌, if◌then◌else◌,
  none, some, List, [], ◌∷◌, ◌++◌, keep, All, Bool-cases,
}
use tulip_accounting.Prelude.Results.{Error, ok, err}
use tulip_accounting.Prelude.Lists.{At, here, there}
use tulip_accounting.Transactions.{Uuid}
use tulip_accounting.Allocation.Shadow.{ShadowPosting, is_shadow_posted}
use tulip_accounting.Storage.Tables.{find, update, exists, keep-append}
use tulip_accounting.Storage.Budget.{
  Budget, ShadowHeader, ShadowRow, PoolRow, is_shadow, is_leg_of, leg_amounts,
}
use tulip_accounting.Storage.Budget.Triggers.{insert_shadow_rows, is_refused}
use tulip_accounting.Storage.Budget.Shadow.{shadow_row, shadow_rows_of, voided_shadow}
use tulip_accounting.Storage.Budget.Shadow.Book.{
  book, all_legs, are_fit, stored_amounts, is_entry, entries, void_entry,
}

-- The foreign key: every posting names a header.
abbrev pub IsLinked : Budget → Type 0
IsLinked b =
    All
      (λ (p : ShadowRow).
        exists (is_shadow p.household_id p.shadow_transaction_id) b.shadow_headers ≡ true)
      b.shadow_rows

pub exists-entries :
    (hh id : Uuid) (rows : List ShadowRow) (hs : List ShadowHeader)
    → exists (is_entry hh id) (entries rows hs) ≡ exists (is_shadow hh id) hs
exists-entries hh id rows [] = refl
exists-entries hh id rows (h ∷ hs) = rw (exists-entries hh id rows hs) refl

pub find-entries :
    (hh id : Uuid) (rows : List ShadowRow) (hs : List ShadowHeader)
    → find (is_entry hh id) (entries rows hs) ≡ elim (find (is_shadow hh id) hs) [
      | none ↦ none
      | some h ↦ some (record { header = h; legs = keep (is_leg_of h.household_id h.id) rows })
    ]
find-entries hh id rows [] = refl
find-entries hh id rows (h ∷ hs) = elim (Bool-cases (is_shadow hh id h)) [
  | inl hit ↦ rw hit refl
  | inr miss ↦ rw miss (find-entries hh id rows hs)
]

-- A header that keeps its key keeps its postings.
pub update-entries :
    (hh id at : Uuid) (rows : List ShadowRow) (hs : List ShadowHeader)
    → entries rows (update (is_shadow hh id) (voided_shadow at) hs)
      ≡ update (is_entry hh id) (void_entry at) (entries rows hs)
update-entries hh id at rows [] = refl
update-entries hh id at rows (h ∷ hs) = elim (Bool-cases (is_shadow hh id h)) [
  | inl hit ↦ rw (hit, update-entries hh id at rows hs) refl
  | inr miss ↦ rw (miss, update-entries hh id at rows hs) refl
]

-- The postings of a new transaction belong to it, and to no other.
pub keep-own :
    (hh id : Uuid) (ps : List ShadowPosting)
    → keep (is_leg_of hh id) (shadow_rows_of hh id ps) ≡ shadow_rows_of hh id ps
keep-own hh id [] = refl
keep-own hh id (p ∷ ps) = ground (arith, keep-own hh id ps)

pub keep-others :
    (hh id : Uuid) (h : ShadowHeader) (ps : List ShadowPosting)
    → is_shadow hh id h ≡ false
    → keep (is_leg_of h.household_id h.id) (shadow_rows_of hh id ps) ≡ []
keep-others hh id h [] miss = refl
keep-others hh id h (p ∷ ps) miss = ground (arith, keep-others hh id h ps miss)

pub append_nil : (rows : List ShadowRow) → rows ++ [] ≡ rows
append_nil [] = refl
append_nil (p ∷ rows) = ap (λ ps. p ∷ ps) (append_nil rows)

pub append_assoc : (xs ys zs : List ShadowRow) → (xs ++ ys) ++ zs ≡ xs ++ (ys ++ zs)
append_assoc [] ys zs = refl
append_assoc (x ∷ xs) ys zs = ap (λ ws. x ∷ ws) (append_assoc xs ys zs)

pub entries-append :
    (rows : List ShadowRow) (xs ys : List ShadowHeader)
    → entries rows (xs ++ ys) ≡ entries rows xs ++ entries rows ys
entries-append rows [] ys = refl
entries-append rows (h ∷ xs) ys = rw (entries-append rows xs ys) refl

pub entries-others :
    (hh id : Uuid) (rows : List ShadowRow) (ps : List ShadowPosting) (hs : List ShadowHeader)
    → exists (is_shadow hh id) hs ≡ false
    → entries (rows ++ shadow_rows_of hh id ps) hs ≡ entries rows hs
entries-others hh id rows ps [] free = refl
entries-others hh id rows ps (h ∷ hs) free =
    let miss : is_shadow hh id h ≡ false = ground arith in
    rw
      (
        keep-append (is_leg_of h.household_id h.id) rows (shadow_rows_of hh id ps),
        keep-others hh id h ps miss,
        append_nil (keep (is_leg_of h.household_id h.id) rows),
        entries-others hh id rows ps hs (ground arith),
      )
      refl

-- Under a key that no header has, no posting stands.
pub no_legs :
    (hh id : Uuid) (rows : List ShadowRow) (hs : List ShadowHeader)
    → exists (is_shadow hh id) hs ≡ false
    → All
        (λ (p : ShadowRow). exists (is_shadow p.household_id p.shadow_transaction_id) hs ≡ true)
        rows
    → keep (is_leg_of hh id) rows ≡ []
no_legs hh id [] hs free linked = refl
no_legs hh id (p ∷ rows) hs free (own, linked) = elim (Bool-cases (is_leg_of hh id p)) [
  | inl mine ↦
      let same_household : p.household_id ≡ hh = ground arith in
      let same_id : p.shadow_transaction_id ≡ id = ground arith in
      absurd (let clash = rw (same_household, same_id) at own in cc)
  | inr other ↦ rw other (no_legs hh id rows hs free linked)
]

-- No trigger looks at the postings of a transaction that is not posted yet.
pub insert_rows_ok :
    (hh id : Uuid) (ps : List ShadowPosting) (b : Budget)
    → exists (λ h. is_shadow hh id h && is_shadow_posted h.status) b.shadow_headers ≡ false
    → insert_shadow_rows (shadow_rows_of hh id ps) b ≡ (
        if are_fit b.pools b.shadow_rows (shadow_rows_of hh id ps)
        then ok (record b { shadow_rows = b.shadow_rows ++ shadow_rows_of hh id ps })
        else err Error.integrity_error)
unfolding insert_shadow_rows
insert_rows_ok hh id [] b quiet =
    ap (λ (rows : List ShadowRow). ok (record b { shadow_rows = rows }))
      (sym (append_nil b.shadow_rows))
insert_rows_ok hh id (p ∷ ps) b quiet =
    let row = shadow_row hh id p in
    elim (Bool-cases (is_refused b.pools b.shadow_rows row)) [
      | inl refused ↦ rw refused refl
      | inr taken ↦
          let fits = are_fit b.pools (b.shadow_rows ++ (row ∷ [])) (shadow_rows_of hh id ps) in
          rw (taken, quiet)
            (insert_rows_ok hh id ps (record b { shadow_rows = b.shadow_rows ++ (row ∷ []) }) quiet
              ∙ ap
                  (λ (rows : List ShadowRow).
                    if fits
                    then ok (record b { shadow_rows = rows })
                    else err Error.integrity_error)
                  (append_assoc b.shadow_rows (row ∷ []) (shadow_rows_of hh id ps)))
    ]

exists-++ :
    (q : ShadowRow → Bool) (xs ys : List ShadowRow)
    → exists q (xs ++ ys) ≡ (exists q xs || exists q ys)
exists-++ q [] ys = refl
exists-++ q (x ∷ xs) ys = rw (exists-++ q xs ys) (ground arith)

-- The constraints see of the rows there only which of them exist.
pub are_fit-same :
    (pools : List PoolRow) (rows rows' ps : List ShadowRow)
    → ((q : ShadowRow → Bool) → exists q rows ≡ exists q rows')
    → are_fit pools rows ps ≡ are_fit pools rows' ps
are_fit-same pools rows rows' [] same = refl
are_fit-same pools rows rows' (p ∷ ps) same =
    rw
      (
        same (λ r. r.id == p.id),
        are_fit-same pools (rows ++ (p ∷ [])) (rows' ++ (p ∷ [])) ps
            (λ q. exists-++ q rows (p ∷ []) ∙ rw (same q) (sym (exists-++ q rows' (p ∷ [])))),
      )
      refl

kept_none :
    (q w : ShadowRow → Bool) (rows : List ShadowRow)
    → exists q rows ≡ false
    → exists q (keep w rows) ≡ false
kept_none q w [] e = refl
kept_none q w (p ∷ rows) e = ground (arith, kept_none q w rows (ground arith))

legs_none :
    (q : ShadowRow → Bool) (rows : List ShadowRow) (hs : List ShadowHeader)
    → exists q rows ≡ false
    → exists q (all_legs (entries rows hs)) ≡ false
legs_none q rows [] e = refl
legs_none q rows (h ∷ hs) e =
    let own = keep (is_leg_of h.household_id h.id) rows in
    exists-++ q own (all_legs (entries rows hs))
    ∙ rw (kept_none q (is_leg_of h.household_id h.id) rows e) (legs_none q rows hs e)

kept_some :
    (q w : ShadowRow → Bool) (rows : List ShadowRow) {p : ShadowRow}
    → At p rows
    → w p ≡ true
    → q p ≡ true
    → exists q (keep w rows) ≡ true
kept_some q w [] listed own hit = elim listed [ ]
kept_some q w (p ∷ rows) here own hit = rw own (rw hit refl)
kept_some q w (x ∷ rows) (there listed) own hit =
    let rest = kept_some q w rows listed own hit in ground arith

legs_some :
    (q : ShadowRow → Bool) (rows : List ShadowRow) (p : ShadowRow) (hs : List ShadowHeader)
    → At p rows
    → q p ≡ true
    → exists (is_shadow p.household_id p.shadow_transaction_id) hs ≡ true
    → exists q (all_legs (entries rows hs)) ≡ true
legs_some q rows p [] listed hit linked = absurd (cc)
legs_some q rows p (h ∷ hs) listed hit linked =
    let own = keep (is_leg_of h.household_id h.id) rows in
    exists-++ q own (all_legs (entries rows hs))
    ∙ elim (Bool-cases (is_shadow p.household_id p.shadow_transaction_id h)) [
      | inl named ↦
          rw (kept_some q (is_leg_of h.household_id h.id) rows listed (ground arith) hit) refl
      | inr other ↦ let rest = legs_some q rows p hs listed hit (rw other at linked) in ground arith
    ]

found_row :
    (q : ShadowRow → Bool) (rows : List ShadowRow) {P : ShadowRow → Type 0}
    → All P rows
    → exists q rows ≡ true
    → (p : ShadowRow) × At p rows × (q p ≡ true) × P p
found_row q [] all e = absurd (cc)
found_row q (p ∷ rows) (own, all) e = elim (Bool-cases (q p)) [
  | inl hit ↦ (p, here, hit, own)
  | inr miss ↦
      let (r, listed, hit, known) = found_row q rows all (rw miss at e) in
      (r, there listed, hit, known)
]

-- The postings of the entries are those of the table, where each has its header.
pub legs-rows :
    (b : Budget)
    → IsLinked b
    → (q : ShadowRow → Bool) → exists q (all_legs (book b)) ≡ exists q b.shadow_rows
legs-rows b linked q = elim (Bool-cases (exists q b.shadow_rows)) [
  | inl e ↦
      let (p, listed, hit, known) = found_row q b.shadow_rows linked e in
      legs_some q b.shadow_rows p b.shadow_headers listed hit known ∙ sym e
  | inr e ↦ legs_none q b.shadow_rows b.shadow_headers e ∙ sym e
]

-- With one header added under a free key only that one can meet a test on the key.
pub exists-added :
    (hh id : Uuid) (q : ShadowHeader → Bool) (hs : List ShadowHeader) (h : ShadowHeader)
    → exists (is_shadow hh id) hs ≡ false
    → is_shadow hh id h ≡ true
    → exists (λ k. is_shadow hh id k && q k) (hs ++ (h ∷ [])) ≡ q h
exists-added hh id q [] h free own = rw own (ground arith)
exists-added hh id q (k ∷ hs) h free own =
    let miss : is_shadow hh id k ≡ false = ground arith in
    rw miss (exists-added hh id q hs h (ground arith) own)

pub leg_amounts-rows :
    (hh id : Uuid) (ps : List ShadowPosting)
    → leg_amounts (shadow_rows_of hh id ps) ≡ stored_amounts ps
leg_amounts-rows hh id [] = refl
leg_amounts-rows hh id (p ∷ ps) = rw (leg_amounts-rows hh id ps) refl
