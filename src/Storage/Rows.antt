-- ===== src/Storage/Rows.antt =====
-- tulip_storage/models: the rows of the ledger's tables. Timestamps are numbers, encrypted columns texts.
use tulip_accounting.Prelude.{ℕ, Bool, ◌&&◌, String, Option, none, some, List, ◌==◌}
use tulip_accounting.Decimal.{Decimal, quantize}
use tulip_accounting.Transactions.{Uuid, Date, TransactionStatus}
use tulip_accounting.Reconciliation.Confidence.{MatchConfidence}

-- What a column of `SqliteDecimal(20, 8)` gives back of an amount: `process_bind_param` rounds it to eight
-- places, half to even, and stores the integer that `process_result_value` scales back.
abbrev pub stored : Decimal → Decimal
stored amount = quantize 8 amount

abbrev pub stored_or_null : Option Decimal → Option Decimal
stored_or_null none = none
stored_or_null (some amount) = some (stored amount)

-- `models.Transaction`, the header of a set of postings, without `updated_at`
pub record Header : Type 0 where
  pub household_id : Uuid
  pub id : Uuid
  pub date : Date
  pub posted_at : Option ℕ
  pub description : String
  pub reference : Option String
  pub status : TransactionStatus
  pub notes_encrypted : Option String
  pub created_by_user_id : Option Uuid
  pub voided_by_transaction_id : Option Uuid
  pub voided_at : Option ℕ
  pub cleared_at : Option ℕ
  pub reconciled_at : Option ℕ
  pub reconciliation_id : Option Uuid
  pub imported_from_id : Option Uuid
  pub carried_forward_from_reconciliation_id : Option Uuid
  pub created_at : ℕ

-- `models.Posting`
pub record PostingRow : Type 0 where
  pub id : Uuid
  pub household_id : Uuid
  pub transaction_id : Uuid
  pub account_id : Uuid
  pub pool_id : Option Uuid
  pub amount : Decimal
  pub currency : String
  pub fx_rate : Option Decimal
  pub fx_amount : Option Decimal
  pub fx_currency : Option String
  pub memo : Option String

-- `models.StatementLine`
pub record LineRow : Type 0 where
  pub household_id : Uuid
  pub id : Uuid
  pub import_batch_id : Uuid
  pub line_number : ℕ
  pub posted_date : Date
  pub amount : Decimal
  pub currency : String
  pub description : String
  pub counterparty : Option String
  pub reference : Option String
  pub fitid : Option String
  pub is_excluded : Bool
  pub reconciliation_match_id : Option Uuid
  pub promoted_transaction_id : Option Uuid

-- `models.ReconciliationMatch`
pub record MatchRow : Type 0 where
  pub household_id : Uuid
  pub id : Uuid
  pub reconciliation_id : Uuid
  pub statement_line_id : Option Uuid
  pub ledger_transaction_id : Uuid
  pub match_amount : Decimal
  pub currency : String
  pub confidence : Option MatchConfidence
  pub matcher_version : Option String
  pub created_by_user_id : Option Uuid
  pub created_at : ℕ

-- `ReconciliationStatus`
pub data ReconciliationStatus : Type 0 where
  in_progress complete abandoned : ReconciliationStatus

-- `models.Reconciliation`
pub record Reconciliation : Type 0 where
  pub household_id : Uuid
  pub id : Uuid
  pub account_id : Uuid
  pub statement_period_start : Date
  pub statement_period_end : Date
  pub statement_starting_balance : Decimal
  pub statement_ending_balance : Decimal
  pub currency : String
  pub status : ReconciliationStatus
  pub source_import_batch_id : Option Uuid
  pub created_by_user_id : Option Uuid
  pub created_at : ℕ
  pub completed_at : Option ℕ

-- What a session sees.
pub record Db : Type 0 where
  pub headers : List Header
  pub postings : List PostingRow
  pub lines : List LineRow
  pub matches : List MatchRow
  pub reconciliations : List Reconciliation

-- The composite keys, and the foreign key of a posting.
abbrev pub is_header : Uuid → Uuid → Header → Bool
is_header household_id id h = h.household_id == household_id && h.id == id

abbrev pub is_posting_of : Uuid → Uuid → PostingRow → Bool
is_posting_of household_id tx_id p = p.household_id == household_id && p.transaction_id == tx_id

abbrev pub is_line : Uuid → Uuid → LineRow → Bool
is_line household_id id l = l.household_id == household_id && l.id == id

abbrev pub is_match : Uuid → Uuid → MatchRow → Bool
is_match household_id id m = m.household_id == household_id && m.id == id

abbrev pub is_reconciliation : Uuid → Uuid → Reconciliation → Bool
is_reconciliation household_id id r = r.household_id == household_id && r.id == id
