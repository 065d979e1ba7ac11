-- ===== src/Storage/Ledger.antt =====
-- repositories/transaction.py: the writes of `TransactionRepository`. `encrypt_field` rests on a package
-- and is a parameter; it takes the key, the household and the row (the associated data) and the text.
pub mod Edits
pub mod Balance
pub mod Calls
pub mod Rules
pub mod Kept
pub mod Invariant
pub mod Immutable
pub mod Tenancy
pub mod Saved
use Prim.Native.String.{slice, len, ◌++◌ as ◌<>◌}
use text.Mathlib.Text.{starts_with}
use tulip_accounting.Prelude.{
  ℕ, Bool, true, false, not, ◌&&◌, String, Option, none, some, List, [], ◌∷◌, if◌then◌else◌, ◌==◌,
}
use tulip_accounting.Prelude.Results.{Error, Result, ok, err, raise_if, ◌>>◌, ◌>>=◌}
use tulip_accounting.Money.{Money}
use tulip_accounting.Transactions.{
  Uuid, Date, Posting, Transaction, TransactionStatus, in_ledger, is_some,
}
use tulip_accounting.Accounting.{is_posted}
use tulip_accounting.Storage.Tables.{find, update, delete}
use tulip_accounting.Storage.Rows.{
  Db, Header, PostingRow, LineRow, stored, is_header, is_posting_of,
}
use tulip_accounting.Storage.Triggers.{insert_header, insert_postings, update_status}

-- `UNSET`, or a value
pub data Patch {ℓ} (A : Type ℓ) : Type ℓ where
  unset : Patch A
  value : A → Patch A

-- `TransactionRepository.__init__`
pub record Repository : Type 0 where
  pub household_id : Uuid
  pub master_key : Option String

-- `_require_master_key`
unfoldable pub require_master_key : Repository → Result String
require_master_key repo = elim repo.master_key [
  | none ↦ err Error.master_key_required
  | some k ↦ ok k
]

-- `get`, over the column of the headers
abbrev pub get : Repository → Uuid → Db → Option Header
get repo id db = find (is_header repo.household_id id) db.headers

-- `get`, and the LookupError where there is no row
abbrev pub or_not_found {ℓ} : {A : Type ℓ} → Option A → Result A
or_not_found none = err Error.not_found
or_not_found (some a) = ok a

abbrev pub get_or_raise : Repository → Uuid → Db → Result Header
get_or_raise repo id db = or_not_found (get repo id db)

-- The row of a posting.
abbrev pub posting_row : Uuid → Uuid → Posting → PostingRow
posting_row household_id tx_id p = record {
  id = p.id;
  household_id = household_id;
  transaction_id = tx_id;
  account_id = p.account_id;
  pool_id = p.pool_id;
  amount = stored p.amount.amount;
  currency = p.amount.currency;
  fx_rate = elim p.fx_rate [ none ↦ none | some r ↦ some (stored r) ];
  fx_amount = elim p.fx_amount [ none ↦ none | some m ↦ some (stored m.amount) ];
  fx_currency = elim p.fx_amount [ none ↦ none | some m ↦ some m.currency ];
  memo = p.memo;
}

abbrev pub posting_rows : Uuid → Uuid → List Posting → List PostingRow
posting_rows household_id tx_id [] = []
posting_rows household_id tx_id (p ∷ ps) =
    posting_row household_id tx_id p ∷ posting_rows household_id tx_id ps

abbrev pub is_pending : TransactionStatus → Bool
is_pending status = not (in_ledger status)

-- `StatementLine.promoted_transaction_id == tx_id`
abbrev pub is_promoted_to : Uuid → Uuid → LineRow → Bool
is_promoted_to household_id tx_id l =
    l.household_id == household_id
    && elim l.promoted_transaction_id [ none ↦ false | some t ↦ t == tx_id ]

module _ (encrypt : String → Uuid → Uuid → String → String) where
  -- A note that is written, if it is one.
  unfoldable pub encrypt_notes : Repository → Uuid → Option String → Result (Option String)
  unfolding require_master_key
  encrypt_notes repo tx_id none = ok none
  encrypt_notes repo tx_id (some notes) = do
    key ← require_master_key repo
    ok (some (encrypt key repo.household_id tx_id notes))

  -- The header that `_save` inserts.
  abbrev pub pending_header :
      Repository → Transaction → TransactionStatus → Option Uuid → Option String → ℕ → Header
  pending_header repo tx target imported_from_id notes_blob now = record {
    household_id = repo.household_id;
    id = tx.id;
    date = tx.date;
    posted_at = if is_posted target then some now else none;
    description = tx.description;
    reference = tx.reference;
    status = TransactionStatus.pending;
    notes_encrypted = notes_blob;
    created_by_user_id = tx.created_by_user_id;
    voided_by_transaction_id = none;
    voided_at = none;
    cleared_at = none;
    reconciled_at = none;
    reconciliation_id = none;
    imported_from_id = imported_from_id;
    carried_forward_from_reconciliation_id = none;
    created_at = now;
  }

  -- `_save`: the header as pending, the postings, then the status, on which the trigger fires.
  unfoldable pub save :
      Repository
      → Transaction
      → TransactionStatus
      → Option Uuid
      → Option String
      → ℕ
      → Db
      → Result (Header × Db)
  unfolding encrypt_notes insert_header insert_postings update_status
  save repo tx target imported_from_id notes now db = do
    blob ← encrypt_notes repo tx.id notes
    let header = pending_header repo tx target imported_from_id blob now
    with_header ← insert_header header db
    with_postings ← insert_postings (posting_rows repo.household_id tx.id tx.postings) with_header
    after ←
        (if is_pending target
          then ok with_postings
          else update_status repo.household_id tx.id target with_postings)
    ok (record header { status = target }, after)

  -- `save_balanced`. The two enumerations of statuses have the same values.
  unfoldable pub save_balanced :
      Repository → Transaction → Option Uuid → Option String → ℕ → Db → Result (Header × Db)
  unfolding save
  save_balanced repo tx imported_from_id notes now db =
      save repo tx tx.status imported_from_id notes now db

  -- `persist_reversal`
  unfoldable pub persist_reversal :
      Repository → Uuid → Transaction → ℕ → ℕ → Db → Result (Header × Db)
  unfolding save
  persist_reversal repo source_id reversal voided_at now db = do
    source ← get_or_raise repo source_id db
    raise_if (is_some source.voided_by_transaction_id) Error.already_voided
    raise_if (not (in_ledger source.status)) Error.not_voidable
    saved ← save repo reversal reversal.status none none now db
    let linked = λ (h : Header). record h {
      voided_by_transaction_id = some reversal.id;
      voided_at = some voided_at;
    }
    ok (
      saved.0,
      record saved.1 {
        headers = update (is_header repo.household_id source_id) linked saved.1.headers;
      },
    )

  -- `delete_pending`
  unfoldable pub delete_pending : Repository → Uuid → Db → Result Db
  delete_pending repo tx_id db = do
    existing ← get_or_raise repo tx_id db
    raise_if (not (is_pending existing.status)) Error.not_deletable
    ok (record db {
      lines =
          update (is_promoted_to repo.household_id tx_id)
            (λ l. record l { promoted_transaction_id = none }) db.lines;
      postings = delete (is_posting_of repo.household_id tx_id) db.postings;
      headers = delete (is_header repo.household_id tx_id) db.headers;
    })
