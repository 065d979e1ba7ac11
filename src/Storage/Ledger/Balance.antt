-- ===== src/Storage/Ledger/Balance.antt =====
-- The ledger stays balanced: what each statement and each repository call does to the postings of the
-- transactions that count.
use tulip_accounting.Prelude.{
  ◌≡◌, inl, inr, refl, subst, ◌∙◌, arith, true, false, ◌&&◌, List, [], ◌∷◌, ◌++◌, ◌==◌, keep, All,
  All-append, Bool-cases,
}
use tulip_accounting.Prelude.Results.{Error, Ensures, raise_if-Ensures}
use tulip_accounting.Transactions.{Uuid, TransactionStatus, in_ledger}
use tulip_accounting.Storage.Tables.{
  update, delete, exists, keep-append_other, keep-delete, keep-delete_self, All-update, All-map,
  All-exists, All-update_safe,
}
use tulip_accounting.Storage.Rows.{Db, Header, PostingRow, is_header, is_posting_of}
use tulip_accounting.Storage.Triggers.{
  is_balanced_in, same_status, post_aborts, insert_aborts, update_status, insert_postings,
  insert_header,
}

-- A header whose transaction counts has postings that sum to zero in every currency.
abbrev pub IsBooked : List PostingRow → Header → Type 0
IsBooked postings h = in_ledger h.status ≡ true → is_balanced_in postings h.household_id h.id ≡ true

abbrev pub IsLedger : Db → Type 0
IsLedger db = All (IsBooked db.postings) db.headers

pub insert_header-IsLedger :
    (h : Header) (db : Db)
    → in_ledger h.status ≡ false
    → IsLedger db
    → Ensures IsLedger (insert_header h db)
unfolding insert_header
insert_header-IsLedger h db out led =
    raise_if-Ensures IsLedger (exists (is_header h.household_id h.id) db.headers)
      Error.integrity_error _
      λ free. All-append (IsBooked db.postings) db.headers (h ∷ []) led ((λ i. absurd (cc)), tt)

-- The balance of a transaction is that of the postings that a query for it gives.
balanced_by :
    (ps qs : List PostingRow) (household_id tx_id : Uuid)
    → keep (is_posting_of household_id tx_id) ps ≡ keep (is_posting_of household_id tx_id) qs
    → is_balanced_in qs household_id tx_id ≡ true
    → is_balanced_in ps household_id tx_id ≡ true
unfolding is_balanced_in
balanced_by ps qs hh id e b = rw e b

-- One row more: the trigger has seen the balance of its transaction.
added-IsLedger :
    (p : PostingRow) (db : Db)
    → insert_aborts db.headers (db.postings ++ (p ∷ [])) p ≡ false
    → IsLedger db
    → All (IsBooked (db.postings ++ (p ∷ []))) db.headers
added-IsLedger p db passed led =
    let ps = db.postings ++ (p ∷ []) in
    let counts =
      λ (h : Header). is_header p.household_id p.transaction_id h && in_ledger h.status in
    elim (Bool-cases (is_balanced_in ps p.household_id p.transaction_id)) [
      | inl balanced ↦
          All-map db.headers
            (λ h booked i. elim (Bool-cases (is_posting_of h.household_id h.id p)) [
              | inl own ↦
                  let same_household : p.household_id ≡ h.household_id = ground arith in
                  let same_id : p.transaction_id ≡ h.id = ground arith in
                  subst (λ k. is_balanced_in ps k h.id ≡ true) same_household
                    (subst (λ k. is_balanced_in ps p.household_id k ≡ true) same_id balanced)
              | inr other ↦
                  balanced_by ps db.postings h.household_id h.id
                    (keep-append_other (is_posting_of h.household_id h.id) db.postings p other)
                    (booked i)
            ])
            led
      | inr unbalanced ↦
          let absent : exists counts db.headers ≡ false = ground arith in
          All-exists counts db.headers absent
            (λ h booked out i.
              let other : is_posting_of h.household_id h.id p ≡ false = ground arith in
              balanced_by ps db.postings h.household_id h.id
                (keep-append_other (is_posting_of h.household_id h.id) db.postings p other)
                (booked i))
            led
    ]

pub insert_postings-IsLedger :
    (ps : List PostingRow) (db : Db) → IsLedger db → Ensures IsLedger (insert_postings ps db)
unfolding insert_postings
insert_postings-IsLedger [] db led = led
insert_postings-IsLedger (p ∷ ps) db led =
    raise_if-Ensures IsLedger (insert_aborts db.headers (db.postings ++ (p ∷ [])) p)
      Error.trigger_abort _
      λ passed.
        insert_postings-IsLedger ps (record db { postings = db.postings ++ (p ∷ []) })
          (added-IsLedger p db passed led)

same_status-in_ledger :
    (s t : TransactionStatus) → same_status s t ≡ true → in_ledger s ≡ in_ledger t
same_status-in_ledger s t e = ground arith

pub update_status-IsLedger :
    (household_id id : Uuid) (new : TransactionStatus) (db : Db)
    → IsLedger db
    → Ensures IsLedger (update_status household_id id new db)
unfolding update_status
update_status-IsLedger hh id new db led =
    raise_if-Ensures IsLedger
      (exists (λ h. is_header hh id h && post_aborts db.postings new h) db.headers)
      Error.trigger_abort _
      λ passed.
        All-update_safe (is_header hh id) (post_aborts db.postings new)
          (λ h. record h { status = new }) db.headers passed
          (λ h booked own safe i. elim (Bool-cases (same_status h.status new)) [
            | inl same ↦ booked (same_status-in_ledger h.status new same ∙ i)
            | inr changed ↦ ground arith
          ])
          (λ h booked miss. booked) led

-- An edit of a header that keeps its key and its status.
pub edit-IsLedger :
    (household_id id : Uuid) (f : Header → Header) (db : Db)
    → ((h : Header) → IsBooked db.postings h → IsBooked db.postings (f h))
    → IsLedger db
    → IsLedger (record db { headers = update (is_header household_id id) f db.headers })
edit-IsLedger hh id f db keeps led =
    All-update (is_header hh id) f db.headers (λ h booked own. keeps h booked)
      (λ h booked miss. booked) led

nothing_balanced :
    (ps : List PostingRow) (household_id tx_id : Uuid)
    → keep (is_posting_of household_id tx_id) ps ≡ []
    → is_balanced_in ps household_id tx_id ≡ true
unfolding is_balanced_in
nothing_balanced ps hh id e = rw e refl

-- With all postings of a transaction deleted every transaction is as balanced as before.
pub cleared-IsLedger :
    (household_id tx_id : Uuid) (db : Db)
    → IsLedger db
    → IsLedger (record db { postings = delete (is_posting_of household_id tx_id) db.postings })
cleared-IsLedger hh id db led =
    let ps = delete (is_posting_of hh id) db.postings in
    All-map db.headers
      (λ h booked i. elim (Bool-cases (h.household_id == hh && h.id == id)) [
        | inl own ↦
            let same_household : hh ≡ h.household_id = ground arith in
            let same_id : id ≡ h.id = ground arith in
            subst (λ k. is_balanced_in ps k h.id ≡ true) same_household
              (subst (λ k. is_balanced_in ps hh k ≡ true) same_id
                (nothing_balanced ps hh id (keep-delete_self (is_posting_of hh id) db.postings)))
        | inr other ↦
            balanced_by ps db.postings h.household_id h.id
              (keep-delete (is_posting_of h.household_id h.id) (is_posting_of hh id) db.postings
                (λ p mine. ground arith))
              (booked i)
      ])
      led
