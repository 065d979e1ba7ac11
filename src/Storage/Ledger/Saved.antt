-- ===== src/Storage/Ledger/Saved.antt =====
-- `save_balanced` of a transaction that no posting names: when the trigger aborts it, and what is read back.
use tulip_accounting.Prelude.{
  ℕ, ◌≡◌, Bool, false, String, Option, none, List, [], ◌∷◌, ◌++◌, all_of,
}
use tulip_accounting.Prelude.Results.{Result, ok, err}
use mathlib.Core.List.{Perm}
use mathlib.Core.List.Perm
use tulip_accounting.Transactions.{Uuid, Transaction, tally, entry_is_zero}
use tulip_accounting.Storage.Tables.{exists}
use tulip_accounting.Storage.Rows.{Db, Header, PostingRow, is_header, is_posting_of}
use tulip_accounting.Storage.Triggers.{row_amounts}
use tulip_accounting.Storage.Ledger.{Repository, posting_rows, pending_header}

-- What the columns hold of the postings balances in every currency.
abbrev is_stored_even : Uuid → Transaction → Bool
is_stored_even hh tx =
    all_of entry_is_zero (tally (row_amounts (posting_rows hh tx.id tx.postings)) [])

module _ (encrypt : String → Uuid → Uuid → String → String) (repo : Repository) (tx : Transaction)
    (imported : Option Uuid) (now : ℕ) (db : Db)
    (no_header : exists (is_header repo.household_id tx.id) db.headers ≡ false)
    (no_posting : exists (is_posting_of repo.household_id tx.id) db.postings ≡ false) where
  header : Header
  header = pending_header encrypt repo tx tx.status imported none now

  rows : List PostingRow
  rows = posting_rows repo.household_id tx.id tx.postings

  with_postings : Db
  unfolding header rows
  with_postings = record db {
    headers = db.headers ++ (header ∷ []);
    postings = db.postings ++ rows;
  }

  final : Header
  unfolding header
  final = record header { status = tx.status }

-- The value that a call returned, or another.
abbrev saved_or : Header × Db → Result (Header × Db) → Header × Db
saved_or other (ok r) = r
saved_or other (err e) = other
