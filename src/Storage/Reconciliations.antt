-- ===== src/Storage/Reconciliations.antt =====
-- repositories/reconciliation.py, reconciliation_match.py and statement_line.py: the writes around a
-- reconciliation of a household. `uuid4` and the clock are arguments.
pub mod Lines
pub mod Pointers
pub mod Reachable
pub mod Completed
use tulip_accounting.Prelude.{
  ℕ, Bool, true, false, not, ◌&&◌, ◌||◌, String, Option, none, some, List, [], ◌∷◌, ◌++◌, ◌==◌, ltb,
  leb, keep, if◌then◌else◌,
}
use tulip_accounting.Prelude.Results.{Error, Result, ok, err, raise_if, ◌>>◌, ◌>>=◌}
use tulip_accounting.Decimal.{Decimal}
use tulip_accounting.Transactions.{Uuid, Date}
use tulip_accounting.Reconciliation.Confidence.{MatchConfidence}
use tulip_accounting.Storage.Tables.{find, update, delete, exists}
use tulip_accounting.Storage.Rows.{
  stored, Db, Header, LineRow, MatchRow, Reconciliation, ReconciliationStatus, is_header, is_line,
  is_match, is_reconciliation,
}
use tulip_accounting.Storage.Ledger.{or_not_found}

-- `column == id` on a column that may be NULL
abbrev pub refers_to : Option Uuid → Uuid → Bool
refers_to none id = false
refers_to (some x) id = x == id

abbrev pub is_match_of : Uuid → Uuid → MatchRow → Bool
is_match_of household_id reconciliation_id m =
    m.household_id == household_id && m.reconciliation_id == reconciliation_id

-- `list_for_reconciliation`
abbrev pub list_for_reconciliation : Uuid → Uuid → Db → List MatchRow
list_for_reconciliation household_id reconciliation_id db =
    keep (is_match_of household_id reconciliation_id) db.matches

abbrev pub get_reconciliation : Uuid → Uuid → Db → Option Reconciliation
get_reconciliation household_id id db = find (is_reconciliation household_id id) db.reconciliations

-- `ReconciliationRepository.create`
unfoldable pub create :
    Uuid
    → Uuid
    → Uuid
    → Date
    → Date
    → Decimal
    → Decimal
    → String
    → Option Uuid
    → Option Uuid
    → ℕ
    → Db
    → Result (Reconciliation × Db)
create household_id id account_id period_start period_end starting ending currency batch user now
      db =
    do
      raise_if (ltb period_end period_start) Error.inverted_period
      let recon : Reconciliation = record {
        household_id = household_id;
        id = id;
        account_id = account_id;
        statement_period_start = period_start;
        statement_period_end = period_end;
        statement_starting_balance = stored starting;
        statement_ending_balance = stored ending;
        currency = currency;
        status = ReconciliationStatus.in_progress;
        source_import_batch_id = batch;
        created_by_user_id = user;
        created_at = now;
        completed_at = none;
      }
      ok (recon, record db { reconciliations = db.reconciliations ++ (recon ∷ []) })

-- `Transaction.id.in_(matched_tx_ids)`
abbrev pub is_matched : Uuid → Uuid → Db → Header → Bool
is_matched household_id reconciliation_id db h =
    h.household_id == household_id
    && exists (λ m. m.ledger_transaction_id == h.id)
        (list_for_reconciliation household_id reconciliation_id db)

-- The writes of `complete`
abbrev pub completed : Uuid → Uuid → ℕ → Db → Db
completed household_id id now db = record db {
  headers =
      update (is_matched household_id id db)
        (λ h. record h { reconciliation_id = some id; reconciled_at = some now }) db.headers;
  reconciliations =
      update (is_reconciliation household_id id)
        (λ r. record r { status = ReconciliationStatus.complete; completed_at = some now })
        db.reconciliations;
}

-- `ReconciliationRepository.complete`
unfoldable pub complete : Uuid → Uuid → ℕ → Db → Result Db
complete household_id id now db = do
  recon ← or_not_found (get_reconciliation household_id id db)
  ok (completed household_id id now db)

-- `ReconciliationRepository.abandon`
unfoldable pub abandon : Uuid → Uuid → Db → Result Db
abandon household_id id db = do
  recon ← or_not_found (get_reconciliation household_id id db)
  ok (record db {
    reconciliations =
        update (is_reconciliation household_id id)
          (λ r. record r { status = ReconciliationStatus.abandoned }) db.reconciliations;
  })

-- The lines that the matches of a reconciliation name.
abbrev pub is_line_of : Uuid → Uuid → Db → LineRow → Bool
is_line_of household_id reconciliation_id db l =
    l.household_id == household_id
    && exists (λ m. refers_to m.statement_line_id l.id)
        (list_for_reconciliation household_id reconciliation_id db)

-- The two updates of `revert` on headers: what the reconciliation set, and what it carried forward.
abbrev pub unreconciled : Uuid → Uuid → List Header → List Header
unreconciled household_id id headers =
    update
      (λ h. h.household_id == household_id && refers_to h.carried_forward_from_reconciliation_id id)
      (λ h. record h { carried_forward_from_reconciliation_id = none })
      (update (λ h. h.household_id == household_id && refers_to h.reconciliation_id id)
        (λ h. record h { reconciliation_id = none; reconciled_at = none }) headers)

-- The writes of `revert`; the foreign key deletes the matches with the row.
abbrev pub reverted : Uuid → Uuid → Db → Db
reverted household_id id db = record db {
  lines =
      update (is_line_of household_id id db) (λ l. record l { reconciliation_match_id = none })
        db.lines;
  headers = unreconciled household_id id db.headers;
  reconciliations = delete (is_reconciliation household_id id) db.reconciliations;
  matches = delete (is_match_of household_id id) db.matches;
}

-- `ReconciliationRepository.revert`
unfoldable pub revert : Uuid → Uuid → Db → Result Db
revert household_id id db = do
  recon ← or_not_found (get_reconciliation household_id id db)
  ok (reverted household_id id db)

-- `set_carry_forward` and `clear_carry_forward`
unfoldable pub write_carry_forward : Uuid → Uuid → Option Uuid → Db → Result Db
write_carry_forward household_id transaction_id link db = do
  tx ← or_not_found (find (is_header household_id transaction_id) db.headers)
  ok (record db {
    headers =
        update (is_header household_id transaction_id)
          (λ h. record h { carried_forward_from_reconciliation_id = link }) db.headers;
  })

-- The line of a match, if it has one, is given a pointer.
abbrev pub repoint : Uuid → Option Uuid → Option Uuid → List LineRow → List LineRow
repoint household_id none pointer lines = lines
repoint household_id (some line_id) pointer lines =
    update (is_line household_id line_id) (λ l. record l { reconciliation_match_id = pointer })
      lines

-- The row of a match, its amount as the column holds it.
abbrev pub stored_match : MatchRow → MatchRow
stored_match m = record m { match_amount = stored m.match_amount }

-- `ReconciliationMatchRepository.create`, on the row it inserts
unfoldable pub create_match : MatchRow → Db → Db
create_match m db = record db {
  matches = db.matches ++ (stored_match m ∷ []);
  lines = repoint m.household_id m.statement_line_id (some m.id) db.lines;
}

-- The writes of `reject` for the match that it found
abbrev pub rejected : Uuid → Uuid → MatchRow → Db → Db
rejected household_id match_id m db = record db {
  lines = repoint household_id m.statement_line_id none db.lines;
  matches = delete (is_match household_id match_id) db.matches;
}

-- `ReconciliationMatchRepository.reject`
unfoldable pub reject : Uuid → Uuid → Db → Result Db
reject household_id match_id db = do
  m ← or_not_found (find (is_match household_id match_id) db.matches)
  ok (rejected household_id match_id m db)
