-- ===== src/Storage/Ledger/Rules.antt =====
-- One rule for all writes of `TransactionRepository`: what its statements keep, its calls keep.
use tulip_accounting.Prelude.{
  ◌≡◌, inl, inr, refl, sym, ◌∙◌, subst, arith, Bool, true, false, ◌&&◌, none, some, List, [], ◌∷◌,
  ◌++◌, ◌==◌, Bool-cases, Option-cases,
}
use tulip_accounting.Prelude.Results.{Error, Ensures, raise_if-Ensures}
use tulip_accounting.Transactions.{Uuid, Posting, TransactionStatus, in_ledger}
use tulip_accounting.Storage.Tables.{find, update, delete, exists}
use tulip_accounting.Storage.Rows.{Db, Header, PostingRow, is_header, is_posting_of}
use tulip_accounting.Storage.Triggers.{insert_header, insert_postings, update_status, insert_aborts}
use tulip_accounting.Storage.Ledger.{posting_rows, is_promoted_to}

-- The transaction that a query finds under a key does not count yet.
abbrev pub IsDraft : Uuid → Uuid → Db → Type 0
IsDraft household_id tx_id db =
    (h : Header)
    → find (is_header household_id tx_id) db.headers ≡ some h
    → in_ledger h.status ≡ false

-- An edit of a header keeps its key and status; a small one its date too.
pub record IsEdit (f : Header → Header) : Type 0 where
  pub same_household : (h : Header) → (f h).household_id ≡ h.household_id
  pub same_id : (h : Header) → (f h).id ≡ h.id
  pub same_status : (h : Header) → (f h).status ≡ h.status

-- What is kept by the statements that the repository of a household executes.
pub record Rules (household_id : Uuid) (P : Db → Type 0) : Type 0 where
  pub inserts :
      (h : Header) (db : Db)
      → h.household_id ≡ household_id
      → in_ledger h.status ≡ false
      → P db
      → Ensures P (insert_header h db)
  pub adds :
      (tx_id : Uuid) (ps : List Posting) (db : Db)
      → IsDraft household_id tx_id db
      → P db
      → Ensures P (insert_postings (posting_rows household_id tx_id ps) db)
  pub posts :
      (tx_id : Uuid) (new : TransactionStatus) (db : Db)
      → IsDraft household_id tx_id db
      → P db
      → Ensures P (update_status household_id tx_id new db)
  pub edits_draft :
      (tx_id : Uuid) (f : Header → Header) (db : Db)
      → IsDraft household_id tx_id db
      → IsEdit f
      → P db
      → P (record db { headers = update (is_header household_id tx_id) f db.headers })
  pub edits :
      (tx_id : Uuid) (f : Header → Header) (db : Db)
      → IsEdit f
      → ((h : Header) → (f h).date ≡ h.date)
      → P db
      → P (record db { headers = update (is_header household_id tx_id) f db.headers })
  pub clears :
      (tx_id : Uuid) (db : Db)
      → IsDraft household_id tx_id db
      → P db
      → P (record db { postings = delete (is_posting_of household_id tx_id) db.postings })
  pub removes :
      (tx_id : Uuid) (db : Db)
      → IsDraft household_id tx_id db
      → P db
      → P (record db { headers = delete (is_header household_id tx_id) db.headers })
  pub unpromotes :
      (tx_id : Uuid) (db : Db)
      → P db
      → P (record db {
        lines =
            update
              (is_promoted_to household_id tx_id)
              (λ l. record l { promoted_transaction_id = none })
              db.lines;
      })

-- What is found under a key after a row with that key, and no other, was added.
find_added :
    (p : Header → Bool) (hs : List Header) (h : Header)
    → exists p hs ≡ false
    → p h ≡ true
    → find p (hs ++ (h ∷ [])) ≡ some h
find_added p [] h absent own = rw own refl
find_added p (x ∷ hs) h absent own =
    let miss : p x ≡ false = ground arith in rw miss (find_added p hs h (ground arith) own)

pub inserted-IsDraft :
    (h : Header) (db : Db)
    → in_ledger h.status ≡ false
    → Ensures (IsDraft h.household_id h.id) (insert_header h db)
unfolding insert_header
inserted-IsDraft h db waits =
    raise_if-Ensures (IsDraft h.household_id h.id)
      (exists (is_header h.household_id h.id) db.headers) Error.integrity_error _
      λ absent g e.
        let own : is_header h.household_id h.id h ≡ true = ground arith in
        let same : h ≡ g =
          ground (arith, find_added (is_header h.household_id h.id) db.headers h absent own) in
        subst (λ k. in_ledger k.status ≡ false) same waits

pub insert_postings-headers :
    (ps : List PostingRow) (db : Db) → Ensures (λ d. d.headers ≡ db.headers) (insert_postings ps db)
unfolding insert_postings
insert_postings-headers [] db = refl
insert_postings-headers (p ∷ ps) db =
    raise_if-Ensures (λ d. d.headers ≡ db.headers)
      (insert_aborts db.headers (db.postings ++ (p ∷ [])) p) Error.trigger_abort _
      λ passed. insert_postings-headers ps (record db { postings = db.postings ++ (p ∷ []) })

-- An edit under the key changes what is found just so.
pub find-update_edit :
    (household_id tx_id : Uuid) (f : Header → Header) (hs : List Header)
    → IsEdit f
    → find (is_header household_id tx_id) (update (is_header household_id tx_id) f hs)
      ≡ (elim (find (is_header household_id tx_id) hs) [ none ↦ none | some h ↦ some (f h) ])
find-update_edit hh id f [] keeps = refl
find-update_edit hh id f (h ∷ hs) keeps = elim (Bool-cases (h.household_id == hh && h.id == id)) [
  | inl hit ↦ rw (hit, keeps.same_household h, keeps.same_id h, hit) refl
  | inr miss ↦ rw (miss, miss) (find-update_edit hh id f hs keeps)
]

pub edited-IsDraft :
    (household_id tx_id : Uuid) (f : Header → Header) (hs : List Header)
    → IsEdit f
    → ((h : Header) → find (is_header household_id tx_id) hs ≡ some h → in_ledger h.status ≡ false)
    → (h : Header)
    → find (is_header household_id tx_id) (update (is_header household_id tx_id) f hs) ≡ some h
    → in_ledger h.status ≡ false
edited-IsDraft hh id f hs keeps draft h e =
    let found = sym (find-update_edit hh id f hs keeps) ∙ e in
    elim (Option-cases (find (is_header hh id) hs)) [
      | inl absent ↦ absurd (ground arith)
      | inr (old, present) ↦
          let same : f old ≡ h = ground arith in
          subst (λ k. in_ledger k.status ≡ false) same
            (rw (keeps.same_status old) (draft old present))
    ]

-- What is found and waits is a draft.
pub found-IsDraft :
    (household_id tx_id : Uuid) (db : Db) (h : Header)
    → find (is_header household_id tx_id) db.headers ≡ some h
    → in_ledger h.status ≡ false
    → IsDraft household_id tx_id db
found-IsDraft hh id db h e waits g e' =
    let same : h ≡ g = ground arith in subst (λ k. in_ledger k.status ≡ false) same waits
