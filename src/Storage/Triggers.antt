-- ===== src/Storage/Triggers.antt =====
-- migrations/_triggers.py: the balance triggers of the main ledger, and the writes that fire them.
-- `RAISE(ABORT)` is an error; a second row with a key that is taken is refused as the primary key does.
use tulip_accounting.Prelude.{Bool, true, false, not, ◌&&◌, List, [], ◌∷◌, ◌++◌, keep, all_of}
use tulip_accounting.Prelude.Results.{Error, Result, ok, raise_if, ◌>>◌}
use tulip_accounting.Money.{Money}
use tulip_accounting.Transactions.{Uuid, TransactionStatus, in_ledger, tally, entry_is_zero}
use tulip_accounting.Storage.Tables.{update, exists}
use tulip_accounting.Storage.Rows.{Db, Header, PostingRow, is_header, is_posting_of}

-- The amounts and currencies of postings.
abbrev pub row_amounts : List PostingRow → List Money
row_amounts [] = []
row_amounts (p ∷ ps) = record { amount = p.amount; currency = p.currency } ∷ row_amounts ps

-- No group of the postings of a transaction by currency has a sum other than 0.
unfoldable pub is_balanced_in : List PostingRow → Uuid → Uuid → Bool
unfolding tally
is_balanced_in postings household_id tx_id =
    all_of entry_is_zero (tally (row_amounts (keep (is_posting_of household_id tx_id) postings)) [])

abbrev pub same_status : TransactionStatus → TransactionStatus → Bool
same_status TransactionStatus.pending TransactionStatus.pending = true
same_status TransactionStatus.posted TransactionStatus.posted = true
same_status TransactionStatus.reconciled TransactionStatus.reconciled = true
same_status _ _ = false

-- `trg_transactions_balanced_on_post` on one row that is given a status: does it abort?
abbrev pub post_aborts : List PostingRow → TransactionStatus → Header → Bool
post_aborts postings new h =
    in_ledger new
    && not (same_status h.status new)
    && not (is_balanced_in postings h.household_id h.id)

-- `UPDATE transactions SET status = new WHERE household_id = ... AND id = ...`
unfoldable pub update_status : Uuid → Uuid → TransactionStatus → Db → Result Db
unfolding is_balanced_in
update_status household_id id new db = do
  raise_if (exists (λ h. is_header household_id id h && post_aborts db.postings new h) db.headers)
      Error.trigger_abort
  ok (record db {
    headers = update (is_header household_id id) (λ h. record h { status = new }) db.headers;
  })

-- `trg_postings_balanced_on_insert` after a row was added: does it abort?
abbrev pub insert_aborts : List Header → List PostingRow → PostingRow → Bool
insert_aborts headers postings new =
    exists (λ h. is_header new.household_id new.transaction_id h && in_ledger h.status) headers
    && not (is_balanced_in postings new.household_id new.transaction_id)

-- `INSERT INTO postings`, row by row
unfoldable pub insert_postings : List PostingRow → Db → Result Db
unfolding is_balanced_in
insert_postings [] db = ok db
insert_postings (p ∷ ps) db = do
  raise_if (insert_aborts db.headers (db.postings ++ (p ∷ [])) p) Error.trigger_abort
  insert_postings ps (record db { postings = db.postings ++ (p ∷ []) })

-- `INSERT INTO transactions`
unfoldable pub insert_header : Header → Db → Result Db
insert_header h db = do
  raise_if (exists (is_header h.household_id h.id) db.headers) Error.integrity_error
  ok (record db { headers = db.headers ++ (h ∷ []) })
