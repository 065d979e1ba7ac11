-- ===== src/Storage/Ledger/Tenancy.antt =====
-- The writes of a household's `TransactionRepository` against the rows of the other households.
use tulip_accounting.Prelude.{
  ◌≡◌, refl, ap, ◌∙◌, arith, Bool, not, ◌&&◌, String, none, List, [], ◌∷◌, ◌++◌, ◌==◌, keep,
}
use tulip_accounting.Prelude.Results.{Error, Ensures, raise_if-Ensures}
use tulip_accounting.Transactions.{Uuid, Posting}
use tulip_accounting.Storage.Tables.{
  update, delete, exists, keep-append_other, keep-update, keep-delete,
}
use tulip_accounting.Storage.Rows.{Db, Header, PostingRow, is_header, is_posting_of}
use tulip_accounting.Storage.Triggers.{
  insert_header, insert_postings, update_status, insert_aborts, post_aborts,
}
use tulip_accounting.Storage.Ledger.{Repository, posting_row, posting_rows, is_promoted_to}
use tulip_accounting.Storage.Ledger.Calls.{Call, perform_all}
use tulip_accounting.Storage.Ledger.Rules.{Rules}
use tulip_accounting.Storage.Ledger.Kept.{perform_all-keeps}

-- The rows of the households other than one.
abbrev pub not_of {ℓ} : {A : Type ℓ} → (A → Uuid) → Uuid → A → Bool
not_of owner household_id row = not (owner row == household_id)

abbrev pub elsewhere : Uuid → Db → Db
elsewhere hh db = record {
  headers = keep (not_of (λ h. h.household_id) hh) db.headers;
  postings = keep (not_of (λ p. p.household_id) hh) db.postings;
  lines = keep (not_of (λ l. l.household_id) hh) db.lines;
  matches = keep (not_of (λ m. m.household_id) hh) db.matches;
  reconciliations = keep (not_of (λ r. r.household_id) hh) db.reconciliations;
}

module _ (hh : Uuid) (others : Db) where
  -- The other households' rows are these.
  abbrev Apart : Db → Type 0
  Apart db = elsewhere hh db ≡ others

  with_headers :
      (db : Db) (hs : List Header)
      → keep (not_of (λ h. h.household_id) hh) hs
        ≡ keep (not_of (λ h. h.household_id) hh) db.headers
      → Apart db
      → Apart (record db { headers = hs })
  with_headers db hs e p = ap (λ k. record (elsewhere hh db) { headers = k }) e ∙ p

  with_postings :
      (db : Db) (ps : List PostingRow)
      → keep (not_of (λ x. x.household_id) hh) ps
        ≡ keep (not_of (λ x. x.household_id) hh) db.postings
      → Apart db
      → Apart (record db { postings = ps })
  with_postings db ps e p = ap (λ k. record (elsewhere hh db) { postings = k }) e ∙ p

  edited :
      (tx_id : Uuid) (f : Header → Header) (db : Db)
      → ((h : Header) → (f h).household_id ≡ h.household_id)
      → Apart db
      → Apart (record db { headers = update (is_header hh tx_id) f db.headers })
  edited tx_id f db same p =
      with_headers db (update (is_header hh tx_id) f db.headers)
        (keep-update (not_of (λ h. h.household_id) hh) (is_header hh tx_id) f db.headers
          (λ h own. (ground arith, rw (same h) (ground arith))))
        p

  adds_apart :
      (tx_id : Uuid) (ps : List Posting) (db : Db)
      → Apart db
      → Ensures Apart (insert_postings (posting_rows hh tx_id ps) db)
  unfolding insert_postings
  adds_apart tx_id [] db p = p
  adds_apart tx_id (x ∷ ps) db p =
      let new = posting_row hh tx_id x in
      raise_if-Ensures Apart (insert_aborts db.headers (db.postings ++ (new ∷ [])) new)
        Error.trigger_abort _
        λ passed. adds_apart tx_id ps _ (
          with_postings db _
            (keep-append_other (not_of (λ q. q.household_id) hh) db.postings new (ground arith)) p)

  apart_rules : Rules hh Apart
  unfolding insert_header update_status
  apart_rules = record {
    inserts = λ h db own waits p.
        raise_if-Ensures Apart (exists (is_header h.household_id h.id) db.headers)
          Error.integrity_error _
          λ free.
            with_headers db (db.headers ++ (h ∷ []))
              (keep-append_other (not_of (λ g. g.household_id) hh) db.headers h (ground arith)) p;
    adds = λ tx_id ps db draft p. adds_apart tx_id ps db p;
    posts = λ tx_id new db draft p.
        raise_if-Ensures Apart
          (exists (λ h. is_header hh tx_id h && post_aborts db.postings new h) db.headers)
          Error.trigger_abort _
          λ passed. edited tx_id (λ h. record h { status = new }) db (λ h. refl) p;
    edits_draft = λ tx_id f db draft keeps p. edited tx_id f db keeps.same_household p;
    edits = λ tx_id f db keeps dates p. edited tx_id f db keeps.same_household p;
    clears = λ tx_id db draft p.
        with_postings db (delete (is_posting_of hh tx_id) db.postings)
          (keep-delete (not_of (λ q. q.household_id) hh) (is_posting_of hh tx_id) db.postings
            (λ q own. ground arith))
          p;
    removes = λ tx_id db draft p.
        with_headers db (delete (is_header hh tx_id) db.headers)
          (keep-delete (not_of (λ q. q.household_id) hh) (is_header hh tx_id) db.headers
            (λ q own. ground arith))
          p;
    unpromotes = λ tx_id db p.
        ap (λ k. record (elsewhere hh db) { lines = k })
          (keep-update (not_of (λ l. l.household_id) hh) (is_promoted_to hh tx_id)
            (λ l. record l { promoted_transaction_id = none }) db.lines
            (λ l own. (ground arith, ground arith)))
        ∙ p;
  }

-- No sequence of writes of a household's repository touches a row of another household.
pub elsewhere-perform_all :
    (encrypt : String → Uuid → Uuid → String → String) (repo : Repository) (cs : List Call)
    (db : Db)
    → elsewhere repo.household_id (perform_all encrypt repo cs db) ≡ elsewhere repo.household_id db
elsewhere-perform_all encrypt repo cs db =
    perform_all-keeps encrypt repo
      (λ d. elsewhere repo.household_id d ≡ elsewhere repo.household_id db)
      (apart_rules repo.household_id (elsewhere repo.household_id db)) cs db refl
