-- ===== src/Storage/Ledger/Immutable.antt =====
-- What has been posted stays: the writes of `TransactionRepository` against a transaction that counts.
use tulip_accounting.Prelude.{
  ℕ, ◌≡◌, inl, inr, refl, ◌∙◌, arith, Bool, true, false, ◌&&◌, String, Option, some, List, [], ◌∷◌,
  ◌++◌, ◌==◌, keep, Bool-cases,
}
use tulip_accounting.Prelude.Results.{Error, Ensures, raise_if-Ensures}
use tulip_accounting.Transactions.{Uuid, Posting, TransactionStatus, in_ledger}
use tulip_accounting.Storage.Tables.{find, update, delete, exists, keep-append_other, keep-delete}
use tulip_accounting.Storage.Rows.{Db, Header, PostingRow, is_header, is_posting_of}
use tulip_accounting.Storage.Triggers.{
  insert_header, insert_postings, update_status, insert_aborts, post_aborts,
}
use tulip_accounting.Storage.Ledger.{posting_row, posting_rows}
use tulip_accounting.Storage.Ledger.Calls.{Call, perform_all}
use tulip_accounting.Storage.Ledger.Rules.{IsDraft, IsEdit, Rules, find-update_edit}
use tulip_accounting.Storage.Ledger.Kept.{perform_all-keeps}

-- The transaction under a key counts, with this status and date and these postings.
abbrev pub Stands : Uuid → Uuid → TransactionStatus → ℕ → List PostingRow → Db → Type 0
Stands household_id id status date postings db =
    (h : Header) × (find (is_header household_id id) db.headers ≡ some h)
    × (h.status ≡ status)
    × (h.date ≡ date)
    × (keep (is_posting_of household_id id) db.postings ≡ postings)

find_append :
    (p : Header → Bool) (hs gs : List Header) (h : Header)
    → find p hs ≡ some h
    → find p (hs ++ gs) ≡ some h
find_append p [] gs h e = absurd (cc)
find_append p (x ∷ hs) gs h e = elim (Bool-cases (p x)) [
  | inl hit ↦ rw hit (rw hit at e)
  | inr miss ↦ rw miss (find_append p hs gs h (rw miss at e))
]

find-update_other :
    (q p : Header → Bool) (f : Header → Header) (hs : List Header)
    → ((h : Header) → p h ≡ true → (q h ≡ false) × (q (f h) ≡ false))
    → find q (update p f hs) ≡ find q hs
find-update_other q p f [] other = refl
find-update_other q p f (x ∷ hs) other = elim (Bool-cases (p x)) [
  | inl hit ↦ rw (hit, (other x hit).0, (other x hit).1) (find-update_other q p f hs other)
  | inr miss ↦ rw (miss, find-update_other q p f hs other) refl
]

find-delete_other :
    (q p : Header → Bool) (hs : List Header)
    → ((h : Header) → p h ≡ true → q h ≡ false)
    → find q (delete p hs) ≡ find q hs
find-delete_other q p [] other = refl
find-delete_other q p (x ∷ hs) other = elim (Bool-cases (p x)) [
  | inl hit ↦ rw (hit, other x hit) (find-delete_other q p hs other)
  | inr miss ↦ rw (miss, find-delete_other q p hs other) refl
]

module _ (household_id id : Uuid) (status : TransactionStatus) (date : ℕ)
    (postings : List PostingRow) (counts : in_ledger status ≡ true) where
  P : Db → Type 0
  P = Stands household_id id status date postings

  -- A draft is another transaction.
  other_draft :
      (tx_id : Uuid) (db : Db) → IsDraft household_id tx_id db → P db → (tx_id == id) ≡ false
  unfolding P
  other_draft tx_id db draft p = elim (Bool-cases (tx_id == id)) [
    | inr other ↦ other
    | inl same ↦
        let e : tx_id ≡ id = ground arith in
        let waits : in_ledger p.0.status ≡ false = draft p.0 (rw e p.1) in absurd (ground arith)
  ]

  added_other :
      (tx_id : Uuid) (ps : List Posting) (db : Db)
      → (tx_id == id) ≡ false
      → P db
      → Ensures P (insert_postings (posting_rows household_id tx_id ps) db)
  unfolding P insert_postings
  added_other tx_id [] db other p = p
  added_other tx_id (x ∷ ps) db other (h, found, s, d, rows) =
      let new = posting_row household_id tx_id x in
      raise_if-Ensures P (insert_aborts db.headers (db.postings ++ (new ∷ [])) new)
        Error.trigger_abort _
        λ passed. added_other tx_id ps _ other (
          h,
          found,
          s,
          d,
          keep-append_other (is_posting_of household_id id) db.postings new (ground arith) ∙ rows,
        )

  edited_any :
      (tx_id : Uuid) (f : Header → Header) (db : Db)
      → IsEdit f
      → ((h : Header) → (f h).date ≡ h.date)
      → P db
      → P (record db { headers = update (is_header household_id tx_id) f db.headers })
  unfolding P
  edited_any tx_id f db keeps dates (h, found, s, d, rows) = elim (Bool-cases (tx_id == id)) [
    | inl same ↦
        let e : tx_id ≡ id = ground arith in
        (
          f h,
          rw e (find-update_edit household_id id f db.headers keeps ∙ rw found refl),
          keeps.same_status h ∙ s,
          dates h ∙ d,
          rows,
        )
    | inr other ↦ (
      h,
      find-update_other (is_header household_id id) (is_header household_id tx_id) f db.headers
            (λ g own. (ground arith, rw (keeps.same_household g, keeps.same_id g) (ground arith)))
          ∙ found,
      s,
      d,
      rows,
    )
  ]

  edited_other :
      (tx_id : Uuid) (f : Header → Header) (db : Db)
      → (tx_id == id) ≡ false
      → ((h : Header) → (f h).id ≡ h.id)
      → P db
      → P (record db { headers = update (is_header household_id tx_id) f db.headers })
  unfolding P
  edited_other tx_id f db other same (h, found, s, d, rows) = (
    h,
    find-update_other (is_header household_id id) (is_header household_id tx_id) f db.headers
          (λ g own. (ground arith, rw (same g) (ground arith)))
        ∙ found,
    s,
    d,
    rows,
  )

  stands_rules : Rules household_id P
  unfolding P insert_header update_status
  stands_rules = record {
    inserts = λ h db own waits p.
        raise_if-Ensures P (exists (is_header h.household_id h.id) db.headers) Error.integrity_error
          _
          λ free. (
            p.0,
            find_append (is_header household_id id) db.headers (h ∷ []) p.0 p.1,
            p.2,
            p.3,
            p.4,
          );
    adds = λ tx_id ps db draft p. added_other tx_id ps db (other_draft tx_id db draft p) p;
    posts = λ tx_id new db draft p.
        raise_if-Ensures P
          (exists (λ h. is_header household_id tx_id h && post_aborts db.postings new h) db.headers)
          Error.trigger_abort _
          λ passed.
            edited_other tx_id (λ h. record h { status = new }) db (other_draft tx_id db draft p)
              (λ h. refl) p;
    edits_draft = λ tx_id f db draft keeps p.
        edited_other tx_id f db (other_draft tx_id db draft p) keeps.same_id p;
    edits = λ tx_id f db keeps dates p. edited_any tx_id f db keeps dates p;
    clears = λ tx_id db draft p.
        let other = other_draft tx_id db draft p in
        (
          p.0,
          p.1,
          p.2,
          p.3,
          keep-delete (is_posting_of household_id id) (is_posting_of household_id tx_id) db.postings
                (λ q own. ground arith)
              ∙ p.4,
        );
    removes = λ tx_id db draft p.
        let other = other_draft tx_id db draft p in
        (
          p.0,
          find-delete_other (is_header household_id id) (is_header household_id tx_id) db.headers
                (λ h own. ground arith)
              ∙ p.1,
          p.2,
          p.3,
          p.4,
        );
    unpromotes = λ tx_id db p. p;
  }

  -- A transaction that is posted or reconciled keeps its status, its date and all its postings under
  -- any sequence of writes of its household's repository, whichever of them raise.
  pub perform_all-Stands :
      (encrypt : String → Uuid → Uuid → String → String) (key : Option String) (cs : List Call)
      (db : Db)
      → Stands household_id id status date postings db
      → Stands household_id id status date postings
          (perform_all encrypt (record { household_id = household_id; master_key = key }) cs db)
  unfolding P
  perform_all-Stands encrypt key cs db p =
      perform_all-keeps encrypt (record { household_id = household_id; master_key = key }) P
        stands_rules cs db p
