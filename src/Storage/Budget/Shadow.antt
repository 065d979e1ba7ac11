-- ===== src/Storage/Budget/Shadow.antt =====
-- repositories/shadow_transaction.py: the writes of `ShadowTransactionRepository`. The repository is its
-- household; `now` is the clock that `_save` reads.
pub mod Book
pub mod Entries
pub mod Saving
pub mod Refines
use tulip_accounting.Prelude.{
  ℕ, Bool, true, false, not, Option, none, some, List, [], ◌∷◌, if◌then◌else◌, ◌==◌, ◌&&◌, keep,
}
use tulip_accounting.Prelude.Results.{Error, Result, ok, err, raise_if, ◌>>◌, ◌>>=◌}
use tulip_accounting.Transactions.{Uuid}
use tulip_accounting.Allocation.Shadow.{
  ShadowPosting, ShadowTransaction, ShadowTxStatus, is_shadow_posted, is_voided,
}
use tulip_accounting.Storage.Tables.{find, update}
use tulip_accounting.Storage.Rows.{stored}
use tulip_accounting.Storage.Ledger.{or_not_found}
use tulip_accounting.Storage.Budget.{Budget, ShadowHeader, ShadowRow, is_shadow}
use tulip_accounting.Storage.Budget.Triggers.{
  insert_shadow_header, insert_shadow_rows, update_shadow_status,
}

-- `get`
abbrev pub get_shadow : Uuid → Uuid → Budget → Option ShadowHeader
get_shadow household_id id b = find (is_shadow household_id id) b.shadow_headers

-- The row of a shadow posting.
abbrev pub shadow_row : Uuid → Uuid → ShadowPosting → ShadowRow
shadow_row household_id tx_id p = record {
  id = p.id;
  household_id = household_id;
  shadow_transaction_id = tx_id;
  pool_id = p.pool_id;
  amount = stored p.amount.amount;
  currency = p.amount.currency;
  memo = p.memo;
}

abbrev pub shadow_rows_of : Uuid → Uuid → List ShadowPosting → List ShadowRow
shadow_rows_of household_id tx_id [] = []
shadow_rows_of household_id tx_id (p ∷ ps) =
    shadow_row household_id tx_id p ∷ shadow_rows_of household_id tx_id ps

abbrev pub is_shadow_pending : ShadowTxStatus → Bool
is_shadow_pending ShadowTxStatus.pending = true
is_shadow_pending ShadowTxStatus.posted = false
is_shadow_pending ShadowTxStatus.voided = false

-- The header that `_save` inserts.
abbrev pub shadow_header : Uuid → ShadowTransaction → ℕ → ShadowHeader
shadow_header household_id tx now = record {
  household_id = household_id;
  id = tx.id;
  date = tx.date;
  description = tx.description;
  reason = tx.reason;
  status = ShadowTxStatus.pending;
  paired_main_tx_id = tx.paired_main_tx_id;
  voided_by_shadow_tx_id = none;
  voided_at = none;
  posted_at = if is_shadow_posted tx.status then some now else none;
  created_by_user_id = tx.created_by_user_id;
}

-- `save_balanced`, which is `_save` at the transaction's own status: the header as pending, the
-- postings, then the status, on which the trigger fires.
unfoldable pub save_shadow : Uuid → ShadowTransaction → ℕ → Budget → Result (ShadowHeader × Budget)
unfolding insert_shadow_header insert_shadow_rows update_shadow_status
save_shadow household_id tx now b = do
  let header = shadow_header household_id tx now
  with_header ← insert_shadow_header header b
  with_rows ← insert_shadow_rows (shadow_rows_of household_id tx.id tx.postings) with_header
  after ←
      (if is_shadow_pending tx.status
        then ok with_rows
        else update_shadow_status household_id tx.id tx.status with_rows)
  ok (record header { status = tx.status }, after)

-- The row as `void` leaves it.
abbrev pub voided_shadow : ℕ → ShadowHeader → ShadowHeader
voided_shadow voided_at h = record h { status = ShadowTxStatus.voided; voided_at = some voided_at }

-- `void`, which sets the status `voided`, on which no trigger fires
unfoldable pub void_shadow : Uuid → Uuid → ℕ → Budget → Result (ShadowHeader × Budget)
void_shadow household_id id voided_at b = do
  existing ← or_not_found (get_shadow household_id id b)
  if is_voided existing.status then ok (existing, b) else do
    raise_if (not (is_shadow_posted existing.status)) Error.shadow_not_voidable
    let after : Budget = record b {
      shadow_headers =
          update (is_shadow household_id id) (voided_shadow voided_at) b.shadow_headers;
    }
    loaded ← or_not_found (get_shadow household_id id after)
    ok (loaded, after)

-- `get_paired_id_for_main_tx`
abbrev pub pairs : Uuid → Uuid → ShadowHeader → Bool
pairs household_id main_tx_id h =
    h.household_id == household_id
    && elim h.paired_main_tx_id [ none ↦ false | some t ↦ t == main_tx_id ]

-- `scalar_one_or_none`: more than one row is an error.
abbrev pub one_or_none {ℓ} : {A : Type ℓ} → List A → Result (Option A)
one_or_none [] = ok none
one_or_none (a ∷ []) = ok (some a)
one_or_none (a ∷ b ∷ rest) = err Error.multiple_rows

abbrev pub ids_of : List ShadowHeader → List Uuid
ids_of [] = []
ids_of (h ∷ hs) = h.id ∷ ids_of hs

unfoldable pub get_paired_id_for_main_tx : Uuid → Uuid → Budget → Result (Option Uuid)
get_paired_id_for_main_tx household_id main_tx_id b =
    one_or_none (ids_of (keep (pairs household_id main_tx_id) b.shadow_headers))
