-- ===== src/Storage/Budget/Shadow/Refines.antt =====
-- `save_balanced` and `void` on the two tables, and the book of entries.
use tulip_accounting.Prelude.{
  ℕ, ◌≡◌, inl, inr, refl, ap, sym, ◌∙◌, arith, Bool, true, not, ◌&&◌, none, some, List, [], ◌∷◌,
  ◌++◌, All, All-append, if◌then◌else◌, Bool-cases, Option-cases,
}
use tulip_accounting.Prelude.Results.{
  Error, Result, ok, err, ◌>>=◌, Ensures, Ensures-and, raise_if, ◌>>◌,
}
use tulip_accounting.Transactions.{Uuid}
use tulip_accounting.Allocation.Shadow.{
  ShadowPosting, ShadowTransaction, ShadowTxStatus, is_shadow_posted, is_voided,
}
use tulip_accounting.Storage.Tables.{update, exists, find-update, All-map}
use tulip_accounting.Storage.Ledger.{or_not_found}
use tulip_accounting.Storage.Budget.{Budget, ShadowHeader, ShadowRow, is_shadow}
use tulip_accounting.Storage.Budget.Shadow.{
  get_shadow, shadow_rows_of, save_shadow, voided_shadow, void_shadow,
}
use tulip_accounting.Storage.Budget.Shadow.Book.{
  is_stored_balanced, book, void_status, void_found, book_void, ShadowCall, saving, voiding,
  kept_or, second, booked, perform_shadow, run_shadow, perform_book, run_book,
}
use tulip_accounting.Storage.Budget.Shadow.Entries.{IsLinked, find-entries, update-entries}
use tulip_accounting.Storage.Budget.Shadow.Saving.{fits, final_header, save_shadow_lem, save-book}

module _ (hh id : Uuid) (voided_at : ℕ) (b : Budget) where
  -- The tables after a posted shadow transaction is voided.
  abbrev pub voided_budget : Budget
  voided_budget = record b {
    shadow_headers = update (is_shadow hh id) (voided_shadow voided_at) b.shadow_headers;
  }

  -- What `void` does with the row that it finds.
  abbrev void_by : ShadowTxStatus → ShadowHeader → Result (ShadowHeader × Budget)
  void_by ShadowTxStatus.pending h = err Error.shadow_not_voidable
  void_by ShadowTxStatus.voided h = ok (h, b)
  void_by ShadowTxStatus.posted h = ok (voided_shadow voided_at h, voided_budget)

  abbrev pub VoidOutcome : ShadowHeader → Result (ShadowHeader × Budget)
  VoidOutcome h = void_by h.status h

  steps :
      (s : ShadowTxStatus) (h : ShadowHeader)
      → get_shadow hh id b ≡ some h
      → (if is_voided s
          then ok (h, b)
          else (raise_if (not (is_shadow_posted s)) Error.shadow_not_voidable
              >> (or_not_found (get_shadow hh id voided_budget) >>= λ loaded.
                  ok (loaded, voided_budget))))
        ≡ void_by s h
  steps ShadowTxStatus.pending h found = refl
  steps ShadowTxStatus.voided h found = refl
  steps ShadowTxStatus.posted h found =
      rw
        (find-update (is_shadow hh id) (voided_shadow voided_at) b.shadow_headers h (λ k own. own)
          found)
        refl

  pub void_shadow_lem :
      (h : ShadowHeader)
      → get_shadow hh id b ≡ some h
      → void_shadow hh id voided_at b ≡ VoidOutcome h
  unfolding void_shadow
  void_shadow_lem h found = rw found (steps h.status h found)

  book_steps :
      (s : ShadowTxStatus) (h : ShadowHeader)
      → booked (second (void_by s h)) ≡ void_status hh id voided_at s (book b)
  book_steps ShadowTxStatus.pending h = refl
  book_steps ShadowTxStatus.voided h = refl
  book_steps ShadowTxStatus.posted h =
      ap ok (update-entries hh id voided_at b.shadow_rows b.shadow_headers)

  pub void_absent : get_shadow hh id b ≡ none → void_shadow hh id voided_at b ≡ err Error.not_found
  unfolding void_shadow
  void_absent absent = rw absent refl

  pub void-book :
      booked (second (void_shadow hh id voided_at b)) ≡ book_void hh id voided_at (book b)
  unfolding book_void
  void-book =
      elim (Option-cases (get_shadow hh id b)) [
        | inl absent ↦ ap (λ r. booked (second r)) (void_absent absent) ∙ rw absent refl
        | inr (h, found) ↦
            ap (λ r. booked (second r)) (void_shadow_lem h found)
            ∙ book_steps h.status h
            ∙ rw found refl
      ]
      ∙ sym (
          ap (void_found hh id voided_at (book b))
            (find-entries hh id b.shadow_rows b.shadow_headers))

-- The foreign key stays kept.
exists-grow :
    (hh id : Uuid) (hs : List ShadowHeader) (h : ShadowHeader)
    → exists (is_shadow hh id) hs ≡ true
    → exists (is_shadow hh id) (hs ++ (h ∷ [])) ≡ true
exists-grow hh id [] h e = absurd (cc)
exists-grow hh id (k ∷ hs) h e = elim (Bool-cases (is_shadow hh id k)) [
  | inl hit ↦ rw hit refl
  | inr miss ↦ rw miss (exists-grow hh id hs h (rw miss at e))
]

exists-last :
    (hh id : Uuid) (hs : List ShadowHeader) (h : ShadowHeader)
    → is_shadow hh id h ≡ true
    → exists (is_shadow hh id) (hs ++ (h ∷ [])) ≡ true
exists-last hh id [] h own = rw own refl
exists-last hh id (k ∷ hs) h own = ground (arith, exists-last hh id hs h own)

exists-same :
    (hh id : Uuid) (p : ShadowHeader → Bool) (at : ℕ) (hs : List ShadowHeader)
    → exists (is_shadow hh id) (update p (voided_shadow at) hs) ≡ exists (is_shadow hh id) hs
exists-same hh id p at [] = refl
exists-same hh id p at (h ∷ hs) = ground (arith, exists-same hh id p at hs)

abbrev LinkedIn : List ShadowHeader → ShadowRow → Type 0
LinkedIn hs p = exists (is_shadow p.household_id p.shadow_transaction_id) hs ≡ true

own-LinkedIn :
    (hh id : Uuid) (ps : List ShadowPosting) (hs : List ShadowHeader) (h : ShadowHeader)
    → is_shadow hh id h ≡ true
    → All (LinkedIn (hs ++ (h ∷ []))) (shadow_rows_of hh id ps)
own-LinkedIn hh id [] hs h own = tt
own-LinkedIn hh id (p ∷ ps) hs h own = (exists-last hh id hs h own, own-LinkedIn hh id ps hs h own)

pub save-IsLinked :
    (hh : Uuid) (tx : ShadowTransaction) (now : ℕ) (b : Budget)
    → IsLinked b
    → Ensures IsLinked (second (save_shadow hh tx now b))
save-IsLinked hh tx now b linked =
    let final = final_header hh tx now b in
    let grown =
      All-map b.shadow_rows
        (λ p l. exists-grow p.household_id p.shadow_transaction_id b.shadow_headers final l)
        linked in
    rw (save_shadow_lem hh tx now b linked)
      (elim (Bool-cases (exists (is_shadow hh tx.id) b.shadow_headers)) [
        | inl taken ↦ rw taken tt
        | inr free ↦ rw free (elim (Bool-cases (fits hh tx now b)) [
          | inr refused ↦ rw refused tt
          | inl fit ↦
              rw fit
                (elim (Bool-cases (is_shadow_posted tx.status && not (is_stored_balanced tx))) [
                  | inl out ↦ rw out tt
                  | inr even ↦ rw even (
                      All-append (LinkedIn (b.shadow_headers ++ (final ∷ []))) b.shadow_rows
                        (shadow_rows_of hh tx.id tx.postings) grown
                        (own-LinkedIn hh tx.id tx.postings b.shadow_headers final (ground arith)))
                ])
        ])
      ])

pub void-IsLinked :
    (hh id : Uuid) (at : ℕ) (b : Budget)
    → IsLinked b
    → Ensures IsLinked (second (void_shadow hh id at b))
void-IsLinked hh id at b linked = elim (Option-cases (get_shadow hh id b)) [
  | inl absent ↦ rw (void_absent hh id at b absent) tt
  | inr (h, found) ↦ rw (void_shadow_lem hh id at b h found) (by_status h.status h)
]
  where
    by_status :
        (s : ShadowTxStatus) (h : ShadowHeader) → Ensures IsLinked (second (void_by hh id at b s h))
    by_status ShadowTxStatus.pending h = tt
    by_status ShadowTxStatus.voided h = linked
    by_status ShadowTxStatus.posted h =
        All-map b.shadow_rows
          (λ p l.
            rw
              (exists-same p.household_id p.shadow_transaction_id (is_shadow hh id) at
                b.shadow_headers)
              l)
          linked

abbrev HasPools : Budget → Budget → Type 0
HasPools b after = after.pools ≡ b.pools

save-pools :
    (hh : Uuid) (tx : ShadowTransaction) (now : ℕ) (b : Budget)
    → IsLinked b
    → Ensures (HasPools b) (second (save_shadow hh tx now b))
save-pools hh tx now b linked =
    rw (save_shadow_lem hh tx now b linked)
      (elim (Bool-cases (exists (is_shadow hh tx.id) b.shadow_headers)) [
        | inl taken ↦ rw taken tt
        | inr free ↦ rw free (elim (Bool-cases (fits hh tx now b)) [
          | inr refused ↦ rw refused tt
          | inl fit ↦
              rw fit
                (elim (Bool-cases (is_shadow_posted tx.status && not (is_stored_balanced tx))) [
                  | inl out ↦ rw out tt
                  | inr even ↦ rw even refl
                ])
        ])
      ])

void-pools :
    (hh id : Uuid) (at : ℕ) (b : Budget) → Ensures (HasPools b) (second (void_shadow hh id at b))
void-pools hh id at b = elim (Option-cases (get_shadow hh id b)) [
  | inl absent ↦ rw (void_absent hh id at b absent) tt
  | inr (h, found) ↦ rw (void_shadow_lem hh id at b h found) (by_status h.status h)
]
  where
    by_status :
        (s : ShadowTxStatus) (h : ShadowHeader)
        → Ensures (HasPools b) (second (void_by hh id at b s h))
    by_status ShadowTxStatus.pending h = tt
    by_status ShadowTxStatus.voided h = refl
    by_status ShadowTxStatus.posted h = refl

-- One write, and the book of it.
perform_refines :
    (hh : Uuid) (c : ShadowCall) (b : Budget)
    → IsLinked b
    → booked (perform_shadow hh c b) ≡ perform_book b.pools hh c (book b)
unfolding perform_shadow perform_book
perform_refines hh (saving tx now) b linked = save-book hh tx now b linked
perform_refines hh (voiding id at) b linked = void-book hh id at b

-- The foreign key to the headers, and the pools, after a write.
abbrev IsGood : Budget → Budget → Type 0
IsGood b after = IsLinked after × HasPools b after

perform-IsGood :
    (hh : Uuid) (c : ShadowCall) (b : Budget)
    → IsLinked b
    → Ensures (IsGood b) (perform_shadow hh c b)
unfolding perform_shadow
perform-IsGood hh (saving tx now) b linked =
    Ensures-and IsLinked (HasPools b) (second (save_shadow hh tx now b))
      (save-IsLinked hh tx now b linked) (save-pools hh tx now b linked)
perform-IsGood hh (voiding id at) b linked =
    Ensures-and IsLinked (HasPools b) (second (void_shadow hh id at b))
      (void-IsLinked hh id at b linked) (void-pools hh id at b)

kept-IsGood :
    (r : Result Budget) (b : Budget) → Ensures (IsGood b) r → IsLinked b → IsGood b (kept_or r b)
kept-IsGood (ok after) b good linked = good
kept-IsGood (err e) b good linked = (linked, refl)

kept-book : (r : Result Budget) (b : Budget) → book (kept_or r b) ≡ kept_or (booked r) (book b)
kept-book (ok after) b = refl
kept-book (err e) b = refl

pub run_refines :
    (hh : Uuid) (cs : List ShadowCall) (b : Budget)
    → IsLinked b
    → book (run_shadow hh cs b) ≡ run_book b.pools hh cs (book b)
unfolding run_shadow run_book
run_refines hh [] b linked = refl
run_refines hh (c ∷ cs) b linked =
    let after = perform_shadow hh c b in
    let (still, pools) = kept-IsGood after b (perform-IsGood hh c b linked) linked in
    run_refines hh cs (kept_or after b) still
    ∙ rw pools (
        ap (run_book b.pools hh cs)
          (kept-book after b ∙ ap (λ r. kept_or r (book b)) (perform_refines hh c b linked)))
