-- ===== src/Services/Reconciling.antt =====
-- services/reconciliation_match.py. A reconciliation is passed as the row that the caller fetched;
-- `uuid4` and the clock are arguments.
pub mod AutoMatch
pub mod Complete
pub mod Requests
pub mod PaperCalls
pub mod Paper
use tulip_accounting.Prelude.{
  ℕ, ◌+◌, Bool, true, false, not, ◌&&◌, ◌||◌, String, Option, none, some, List, [], ◌∷◌, ◌++◌, ◌==◌,
  leb, keep, head?, length, if◌then◌else◌,
}
use tulip_accounting.Prelude.Results.{Error, Result, ok, err, raise_if, ◌>>◌, ◌>>=◌}
use tulip_accounting.Decimal.{Decimal, nought, add, sub, eq, is_zero}
use tulip_accounting.Money.{Money, money}
use tulip_accounting.Transactions.{
  Uuid, Date, Posting, Transaction, TransactionStatus, check_posting, check_transaction, is_some,
}
use tulip_accounting.Reconciliation.Score.{Similarity}
use tulip_accounting.Reconciliation.Confidence.{MatchConfidence, CandidateMatch}
use tulip_accounting.Reconciliation.StatementLine.{StatementLine, check_line}
use tulip_accounting.Reconciliation.Matcher.{find_candidates}
use tulip_accounting.Storage.Tables.{find, exists}
use tulip_accounting.Storage.Rows.{
  Db, Header, PostingRow, LineRow, MatchRow, Reconciliation, ReconciliationStatus, is_header,
  is_line, is_posting_of,
}
use tulip_accounting.Storage.Queries.{list_headers, list_postings}
use tulip_accounting.Storage.Reconciliations.{
  refers_to, is_match_of, list_for_reconciliation, complete, create_match, write_carry_forward,
}
use tulip_accounting.Storage.Reconciliations.Lines.{list_for_batch}

-- `status is ReconciliationStatus.IN_PROGRESS`
abbrev pub is_in_progress : ReconciliationStatus → Bool
is_in_progress ReconciliationStatus.in_progress = true
is_in_progress ReconciliationStatus.complete = false
is_in_progress ReconciliationStatus.abandoned = false

-- `if x is None: raise e`
abbrev pub or_raise {ℓ} : {A : Type ℓ} → Error → Option A → Result A
or_raise e none = err e
or_raise e (some a) = ok a

-- `sum(..., Decimal("0"))`
unfoldable pub matched_net : List MatchRow → Decimal
unfolding add
matched_net [] = nought
matched_net (m ∷ ms) = add m.match_amount (matched_net ms)

abbrev pub sum_amounts : Uuid → List PostingRow → Decimal → Decimal
sum_amounts account_id [] rest = rest
sum_amounts account_id (p ∷ ps) rest =
    if p.account_id == account_id
    then add p.amount (sum_amounts account_id ps rest)
    else sum_amounts account_id ps rest

-- `_carry_forward_net`, over the transactions of the session.
unfoldable pub carry_forward_net : Uuid → Reconciliation → List PostingRow → List Header → Decimal
unfolding add
carry_forward_net household_id recon postings [] = nought
carry_forward_net household_id recon postings (h ∷ hs) =
    let rest = carry_forward_net household_id recon postings hs in
    if h.household_id == household_id && refers_to h.carried_forward_from_reconciliation_id recon.id
    then sum_amounts recon.account_id (keep (is_posting_of household_id h.id) postings) rest
    else rest

abbrev pub residual : Uuid → Reconciliation → Db → Decimal
residual household_id recon db =
    sub (sub recon.statement_ending_balance recon.statement_starting_balance) (
      add (matched_net (list_for_reconciliation household_id recon.id db))
        (carry_forward_net household_id recon db.postings db.headers))

-- `complete` of the service; its result is `affected_transaction_count`.
unfoldable pub complete_balanced : Uuid → Reconciliation → ℕ → Db → Result (ℕ × Db)
unfolding complete matched_net carry_forward_net
complete_balanced household_id recon now db = do
  raise_if (not (is_in_progress recon.status)) Error.not_in_progress
  raise_if (not (is_zero (residual household_id recon db))) Error.unbalanced_reconciliation
  after ← complete household_id recon.id now db
  ok (length (list_for_reconciliation household_id recon.id db), after)

-- `period_start <= tx.date <= period_end`
abbrev pub in_period : Reconciliation → Header → Bool
in_period recon tx =
    leb recon.statement_period_start tx.date && leb tx.date recon.statement_period_end

-- The postings of a transaction on the account of the reconciliation.
abbrev pub bank_postings : Uuid → Reconciliation → Uuid → Db → List PostingRow
bank_postings household_id recon tx_id db =
    keep (λ p. p.account_id == recon.account_id) (list_postings household_id tx_id db)

-- Is the transaction matched in the reconciliation?
abbrev pub names_tx : Uuid → Uuid → Uuid → MatchRow → Bool
names_tx household_id recon_id tx_id m =
    is_match_of household_id recon_id m && m.ledger_transaction_id == tx_id

-- `paper_match`
unfoldable pub paper_match :
    Uuid → Reconciliation → Uuid → Uuid → Uuid → ℕ → Db → Result (MatchRow × Db)
unfolding create_match
paper_match household_id recon tx_id user fresh now db = do
  raise_if (not (is_in_progress recon.status)) Error.not_in_progress
  raise_if (is_some recon.source_import_batch_id) Error.not_paper
  tx ← or_raise Error.tx_not_found (find (is_header household_id tx_id) db.headers)
  raise_if (not (in_period recon tx)) Error.tx_not_in_period
  bank_posting ← or_raise Error.account_mismatch (head? (bank_postings household_id recon tx_id db))
  raise_if (exists (names_tx household_id recon.id tx_id) db.matches) Error.tx_matched
  let row : MatchRow = record {
    household_id = household_id;
    id = fresh;
    reconciliation_id = recon.id;
    statement_line_id = none;
    ledger_transaction_id = tx_id;
    match_amount = bank_posting.amount;
    currency = bank_posting.currency;
    confidence = none;
    matcher_version = none;
    created_by_user_id = some user;
    created_at = now;
  }
  ok (row, create_match row db)

-- `manual_match`
unfoldable pub manual_match :
    Uuid
    → Reconciliation
    → Uuid
    → Uuid
    → Decimal
    → String
    → Uuid
    → Uuid
    → ℕ
    → Db
    → Result (MatchRow × Db)
unfolding create_match eq
manual_match household_id recon line_id tx_id match_amount currency user fresh now db = do
  raise_if (not (is_in_progress recon.status)) Error.not_in_progress
  line ← or_raise Error.line_not_found (find (is_line household_id line_id) db.lines)
  raise_if (not (refers_to recon.source_import_batch_id line.import_batch_id))
      Error.line_not_in_batch
  raise_if (is_some line.reconciliation_match_id) Error.line_matched
  raise_if (not (eq line.amount match_amount)) Error.amount_mismatch
  tx ← or_raise Error.tx_not_found (find (is_header household_id tx_id) db.headers)
  raise_if (not (is_some (head? (bank_postings household_id recon tx_id db))))
      Error.account_mismatch
  let row : MatchRow = record {
    household_id = household_id;
    id = fresh;
    reconciliation_id = recon.id;
    statement_line_id = some line_id;
    ledger_transaction_id = tx_id;
    match_amount = match_amount;
    currency = currency;
    confidence = none;
    matcher_version = none;
    created_by_user_id = some user;
    created_at = now;
  }
  ok (row, create_match row db)

-- The loop of `add_carry_forward`
unfoldable pub carry_each : Uuid → Reconciliation → List Uuid → Db → Result Db
unfolding write_carry_forward
carry_each household_id recon [] db = ok db
carry_each household_id recon (tx_id ∷ tx_ids) db = do
  tx ← or_raise Error.tx_not_found (find (is_header household_id tx_id) db.headers)
  raise_if (not (in_period recon tx)) Error.tx_not_in_period
  after ← write_carry_forward household_id tx_id (some recon.id) db
  carry_each household_id recon tx_ids after

-- `add_carry_forward`
unfoldable pub add_carry_forward : Uuid → Reconciliation → List Uuid → Db → Result Db
unfolding carry_each
add_carry_forward household_id recon tx_ids db = do
  raise_if (not (is_in_progress recon.status)) Error.not_in_progress
  carry_each household_id recon tx_ids db

-- `remove_carry_forward`
unfoldable pub remove_carry_forward : Uuid → Reconciliation → Uuid → Db → Result Db
unfolding write_carry_forward
remove_carry_forward household_id recon tx_id db = do
  raise_if (not (is_in_progress recon.status)) Error.not_in_progress
  tx ← or_raise Error.tx_not_found (find (is_header household_id tx_id) db.headers)
  write_carry_forward household_id tx_id none db
