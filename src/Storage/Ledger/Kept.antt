-- ===== src/Storage/Ledger/Kept.antt =====
-- By the rule for statements: whatever they keep, every sequence of writes of the repository keeps.
use tulip_accounting.Prelude.{
  ℕ, ◌≡◌, inl, inr, refl, false, not, String, Option, none, some, List, [], ◌∷◌, if◌then◌else◌,
  Bool-cases, Option-cases,
}
use tulip_accounting.Prelude.Results.{
  Error, Result, ok, err, Ensures, >>=-Ensures, raise_if-Ensures, Ensures-all, Ensures-and,
  weaken-Ensures,
}
use tulip_accounting.Transactions.{
  Uuid, Date, Posting, Transaction, TransactionStatus, in_ledger, is_some,
}
use tulip_accounting.Storage.Tables.{update}
use tulip_accounting.Storage.Rows.{Db, Header, is_header}
use tulip_accounting.Storage.Triggers.{insert_header, insert_postings, update_status}
use tulip_accounting.Storage.Ledger.{
  Repository, Patch, unset, value, get, or_not_found, get_or_raise, posting_rows, is_pending,
  encrypt_notes, save, save_balanced, persist_reversal, delete_pending, pending_header,
}
use tulip_accounting.Storage.Ledger.Edits.{
  patched, redacted, patch_notes, update_pending, rectify_reversal, rectify_posted,
}
use tulip_accounting.Storage.Ledger.Calls.{
  Call, saving, reversing, deleting, editing, rectifying, perform, committed, perform_all,
}
use tulip_accounting.Storage.Ledger.Rules.{
  IsDraft, IsEdit, Rules, inserted-IsDraft, insert_postings-headers, edited-IsDraft, found-IsDraft,
}

got {ℓ} : {A : Type ℓ} (o : Option A) → Ensures (λ a. o ≡ some a) (or_not_found o)
got none = tt
got (some a) = refl

-- Postings that are added leave a draft a draft.
added-IsDraft :
    (household_id tx_id : Uuid) (ps : List Posting) (db : Db)
    → IsDraft household_id tx_id db
    → Ensures (IsDraft household_id tx_id) (insert_postings (posting_rows household_id tx_id ps) db)
added-IsDraft hh id ps db draft =
    weaken-Ensures (λ d. d.headers ≡ db.headers) (IsDraft hh id)
      (insert_postings (posting_rows hh id ps) db) (λ d same h found. draft h (rw (← same) found))
      (insert_postings-headers (posting_rows hh id ps) db)

-- What is found and waits may be edited.
waiting : (status : TransactionStatus) → not (is_pending status) ≡ false → in_ledger status ≡ false
waiting TransactionStatus.pending h = refl
waiting TransactionStatus.posted h = absurd (cc)
waiting TransactionStatus.reconciled h = absurd (cc)

module _ (encrypt : String → Uuid → Uuid → String → String) (repo : Repository) (P : Db → Type 0)
    (rules : Rules repo.household_id P) where
  open rules use {inserts, adds, posts, edits_draft, edits, clears, removes, unpromotes}

  pub save-keeps :
      (tx : Transaction) (target : TransactionStatus) (imported : Option Uuid)
      (notes : Option String) (now : ℕ) (db : Db)
      → P db
      → Ensures (λ r. P r.1) (save encrypt repo tx target imported notes now db)
  unfolding save
  save-keeps tx target imported notes now db p =
      let Draft = λ (d : Db). IsDraft repo.household_id tx.id d in
      let Both = λ (d : Db). P d × Draft d in
      >>=-Ensures (λ _. Unit {0}) (λ r. P r.1) (encrypt_notes encrypt repo tx.id notes) _
        (Ensures-all _ (λ _. tt))
        λ blob _.
          let header = pending_header encrypt repo tx target imported blob now in
          >>=-Ensures Both (λ r. P r.1) (insert_header header db) _
            (Ensures-and P Draft _ (inserts header db refl refl p)
              (inserted-IsDraft header db refl))
            λ one (p1, draft).
              >>=-Ensures Both (λ r. P r.1)
                (insert_postings (posting_rows repo.household_id tx.id tx.postings) one) _
                (Ensures-and P Draft _ (adds tx.id tx.postings one draft p1)
                  (added-IsDraft repo.household_id tx.id tx.postings one draft))
                λ two (p2, still).
                  >>=-Ensures P (λ r. P r.1)
                    (if is_pending target
                      then ok two
                      else update_status repo.household_id tx.id target two)
                    _
                    (elim (Bool-cases (is_pending target)) [
                      | inl waits ↦ rw waits p2
                      | inr counts ↦ rw counts (posts tx.id target two still p2)
                    ])
                    λ three p3. p3

  pub persist_reversal-keeps :
      (source_id : Uuid) (reversal : Transaction) (voided_at now : ℕ) (db : Db)
      → P db
      → Ensures (λ r. P r.1) (persist_reversal encrypt repo source_id reversal voided_at now db)
  unfolding persist_reversal
  persist_reversal-keeps source_id reversal voided_at now db p =
      >>=-Ensures (λ _. Unit {0}) (λ r. P r.1) (get_or_raise repo source_id db) _
        (Ensures-all _ (λ _. tt))
        λ source _.
          raise_if-Ensures (λ r. P r.1) (is_some source.voided_by_transaction_id)
            Error.already_voided _
            λ _.
              raise_if-Ensures (λ r. P r.1) (not (in_ledger source.status)) Error.not_voidable _
                λ _.
                  >>=-Ensures (λ r. P r.1) (λ r. P r.1)
                    (save encrypt repo reversal reversal.status none none now db) _
                    (save-keeps reversal reversal.status none none now db p)
                    λ saved kept.
                      edits source_id
                        (λ h. record h {
                          voided_by_transaction_id = some reversal.id;
                          voided_at = some voided_at;
                        })
                        saved.1
                        (record {
                          same_household = λ h. refl;
                          same_id = λ h. refl;
                          same_status = λ h. refl;
                        })
                        (λ h. refl) kept

  delete_pending-keeps :
      (tx_id : Uuid) (db : Db) → P db → Ensures P (delete_pending encrypt repo tx_id db)
  unfolding delete_pending
  delete_pending-keeps tx_id db p =
      >>=-Ensures (λ h. get repo tx_id db ≡ some h) P (get_or_raise repo tx_id db) _
        (got (get repo tx_id db))
        λ existing found.
          raise_if-Ensures P (not (is_pending existing.status)) Error.not_deletable _ λ passed.
            let draft =
              found-IsDraft repo.household_id tx_id db existing found
                (waiting existing.status passed) in
            removes tx_id _ draft (clears tx_id _ draft (unpromotes tx_id db p))

  update_pending-keeps :
      (tx_id : Uuid) (date : Date) (description : String) (reference : Option String)
      (postings : List Posting) (notes : Patch (Option String)) (db : Db)
      → P db
      → Ensures
          (λ r. P r.1)
          (update_pending encrypt repo tx_id date description reference postings notes db)
  unfolding update_pending
  update_pending-keeps tx_id date description reference postings notes db p =
      >>=-Ensures (λ h. get repo tx_id db ≡ some h) (λ r. P r.1) (get_or_raise repo tx_id db) _
        (got (get repo tx_id db))
        λ existing found.
          raise_if-Ensures (λ r. P r.1) (not (is_pending existing.status)) Error.not_editable _
            λ passed.
              >>=-Ensures (λ _. Unit {0}) (λ r. P r.1) (patch_notes encrypt repo tx_id notes) _
                (Ensures-all _ (λ _. tt))
                λ blob _.
                  let edited = λ (h : Header). record h {
                    date = date;
                    description = description;
                    reference = reference;
                    notes_encrypted = patched blob h.notes_encrypted;
                  } in
                  let keeps : IsEdit edited = record {
                    same_household = λ h. refl;
                    same_id = λ h. refl;
                    same_status = λ h. refl;
                  } in
                  let draft =
                    found-IsDraft repo.household_id tx_id db existing found
                      (waiting existing.status passed) in
                  let still =
                    edited-IsDraft repo.household_id tx_id edited db.headers keeps draft in
                  >>=-Ensures P (λ r. P r.1)
                    (insert_postings (posting_rows repo.household_id tx_id postings) _) _
                    (adds tx_id postings _ still
                      (edits_draft tx_id edited _ draft keeps (clears tx_id db draft p)))
                    λ after kept.
                      >>=-Ensures (λ _. Unit {0}) (λ r. P r.1) (get_or_raise repo tx_id after) _
                        (Ensures-all _ (λ _. tt)) λ refreshed _. kept

  describes :
      (tx_id : Uuid) (text : String) (db : Db)
      → P db
      → P (record db {
        headers =
            update
              (is_header repo.household_id tx_id)
              (λ h. record h { description = text })
              db.headers;
      })
  describes tx_id text db p =
      edits tx_id (λ h. record h { description = text }) db
        (record { same_household = λ h. refl; same_id = λ h. refl; same_status = λ h. refl })
        (λ h. refl) p

  rectify_reversal-keeps :
      (old : String) (description : Patch String) (reversal_id : Option Uuid) (db : Db)
      → P db
      → P (rectify_reversal encrypt repo old description reversal_id db).1
  unfolding rectify_reversal
  rectify_reversal-keeps old unset reversal_id db p = p
  rectify_reversal-keeps old (value new) none db p = p
  rectify_reversal-keeps old (value new) (some id) db p = elim (Option-cases (get repo id db)) [
    | inl absent ↦ rw (rectify_reversal, absent) p
    | inr (reversal, present) ↦ elim (Option-cases (redacted old reversal.description)) [
      | inl unmatched ↦ rw (rectify_reversal, present, unmatched) p
      | inr (text, matched) ↦ rw (rectify_reversal, present, matched) (describes id text db p)
    ]
  ]

  rectify_posted-keeps :
      (tx_id : Uuid) (description : Patch String) (reference : Patch (Option String))
      (notes : Patch (Option String)) (db : Db)
      → P db
      → Ensures (λ r. P r.2) (rectify_posted encrypt repo tx_id description reference notes db)
  unfolding rectify_posted
  rectify_posted-keeps tx_id description reference notes db p =
      >>=-Ensures (λ _. Unit {0}) (λ r. P r.2) (get_or_raise repo tx_id db) _
        (Ensures-all _ (λ _. tt))
        λ existing _.
          raise_if-Ensures (λ r. P r.2) (not (in_ledger existing.status)) Error.not_rectifiable _
            λ _.
              >>=-Ensures (λ _. Unit {0}) (λ r. P r.2) (patch_notes encrypt repo tx_id notes) _
                (Ensures-all _ (λ _. tt))
                λ blob _.
                  let edited = λ (h : Header). record h {
                    description = patched description h.description;
                    reference = patched reference h.reference;
                    notes_encrypted = patched blob h.notes_encrypted;
                  } in
                  let before : Db = record db {
                    headers = update (is_header repo.household_id tx_id) edited db.headers;
                  } in
                  let rewritten =
                    rectify_reversal encrypt repo existing.description description
                      existing.voided_by_transaction_id before in
                  >>=-Ensures (λ _. Unit {0}) (λ r. P r.2) (get_or_raise repo tx_id rewritten.1) _
                    (Ensures-all _ (λ _. tt))
                    λ refreshed _.
                      rectify_reversal-keeps existing.description description
                        existing.voided_by_transaction_id before
                        (edits tx_id edited db
                          (record {
                            same_household = λ h. refl;
                            same_id = λ h. refl;
                            same_status = λ h. refl;
                          })
                          (λ h. refl) p)

  perform-keeps : (c : Call) (db : Db) → P db → Ensures P (perform encrypt repo c db)
  unfolding perform save_balanced
  perform-keeps (saving tx imported notes now) db p =
      >>=-Ensures (λ r. P r.1) P _ _ (save-keeps tx tx.status imported notes now db p)
        (λ r kept. kept)
  perform-keeps (reversing source reversal voided_at now) db p =
      >>=-Ensures (λ r. P r.1) P _ _ (persist_reversal-keeps source reversal voided_at now db p)
        (λ r kept. kept)
  perform-keeps (deleting id) db p = delete_pending-keeps id db p
  perform-keeps (editing id date description reference postings notes) db p =
      >>=-Ensures (λ r. P r.1) P _ _
        (update_pending-keeps id date description reference postings notes db p) (λ r kept. kept)
  perform-keeps (rectifying id description reference notes) db p =
      >>=-Ensures (λ r. P r.2) P _ _ (rectify_posted-keeps id description reference notes db p)
        (λ r kept. kept)

  committed_keeps : (r : Result Db) (db : Db) → Ensures P r → P db → P (committed encrypt r db)
  committed_keeps (ok after) db kept p = kept
  committed_keeps (err e) db kept p = p

  -- Every sequence of writes keeps what the statements keep.
  pub perform_all-keeps : (cs : List Call) (db : Db) → P db → P (perform_all encrypt repo cs db)
  unfolding perform_all
  perform_all-keeps [] db p = p
  perform_all-keeps (c ∷ cs) db p =
      perform_all-keeps cs _
        (committed_keeps (perform encrypt repo c db) db (perform-keeps c db p) p)
