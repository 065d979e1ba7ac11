-- ===== src/Tests/Storage.antt =====
-- The ledger's tables with one posted transaction, and the repository's theorems on them.
use tulip_accounting.Prelude.{◌≡◌, refl, false, String, none, List, [], ◌∷◌, ◌++◌}
use tulip_accounting.Prelude.Int.{pos, negsuc, ◌+ℤ◌, times_ten}
use tulip_accounting.Decimal.{quantize, add, shift}
use tulip_accounting.Transactions.{Uuid, Transaction, TransactionStatus}
use tulip_accounting.Storage.Rows.{Db, Header}
use tulip_accounting.Storage.Triggers.{is_balanced_in}
use tulip_accounting.Storage.Ledger.{Repository, unset, value, posting_rows, pending_header}
use tulip_accounting.Storage.Ledger.Balance.{IsLedger}
use tulip_accounting.Storage.Ledger.Calls.{Call, saving, deleting, rectifying, perform_all}
use tulip_accounting.Storage.Ledger.Invariant.{perform_all-IsLedger}
use tulip_accounting.Storage.Ledger.Immutable.{Stands, perform_all-Stands}
use tulip_accounting.Storage.Ledger.Tenancy.{elsewhere, elsewhere-perform_all}
use tulip_accounting.Storage.Queries.{trial_balance, balance_for_account}
use tulip_accounting.Storage.Queries.TrialBalance.{
  balance_at, column, trial_balance_lem, trial_balance_zero,
}
use tulip_accounting.Tests.Data.{groceries, shop_postings, transaction, posting, usd}

-- An encryption that leaves the text as it is.
abbrev plain : String → Uuid → Uuid → String → String
plain key household_id row text = text

abbrev repo : Repository
repo = record { household_id = 1; master_key = none }

abbrev ledger_db : Db
ledger_db = record {
  headers =
      record (pending_header plain repo groceries TransactionStatus.posted none none 900) {
        status = TransactionStatus.posted;
      }
      ∷ [];
  postings = posting_rows 1 100 shop_postings;
  lines = [];
  matches = [];
  reconciliations = [];
}

ledger_db-IsLedger : IsLedger ledger_db
unfolding is_balanced_in quantize add ◌+ℤ◌ shift times_ten
ledger_db-IsLedger = (λ i. refl, tt)

abbrev rent : Transaction
rent =
    transaction 120
      (posting 121 20 (usd (pos 90_000)) none ∷ posting 122 10 (usd (negsuc 89_999)) none ∷ [])
      TransactionStatus.posted

-- A transaction is saved, the posted one is relabelled, and deleting it is refused.
abbrev calls : List Call
calls = saving rent none none 910 ∷ rectifying 100 (value "Shop") unset unset ∷ deleting 100 ∷ []

perform_all-IsLedger_example : IsLedger (perform_all plain repo calls ledger_db)
perform_all-IsLedger_example = perform_all-IsLedger plain repo calls ledger_db ledger_db-IsLedger

perform_all-Stands_example :
    Stands 1 100 TransactionStatus.posted 738_010
      (posting_rows 1 100 shop_postings)
      (perform_all plain repo calls ledger_db)
perform_all-Stands_example =
    perform_all-Stands 1 100 TransactionStatus.posted 738_010 (posting_rows 1 100 shop_postings)
      refl plain none calls ledger_db (_, refl, refl, refl, refl)

elsewhere-perform_all_example :
    elsewhere 1 (perform_all plain repo calls ledger_db) ≡ elsewhere 1 ledger_db
elsewhere-perform_all_example = elsewhere-perform_all plain repo calls ledger_db

-- What the save of the rent returns.
abbrev rent_header : Header
rent_header = record (pending_header plain repo rent TransactionStatus.posted none none 910) {
  status = TransactionStatus.posted;
}

abbrev rent_db : Db
rent_db = record ledger_db {
  headers = ledger_db.headers ++ (rent_header ∷ []);
  postings = ledger_db.postings ++ posting_rows 1 120 rent.postings;
}

trial_balance_lem_example :
    balance_at 20 "USD" (trial_balance 1 none false ledger_db)
    ≡ balance_for_account 1 20 "USD" none false ledger_db
trial_balance_lem_example = trial_balance_lem 1 20 "USD" none false ledger_db

trial_balance_zero_example : (column "USD" (trial_balance 1 none false ledger_db)).coeff ≡ pos 0
trial_balance_zero_example =
    trial_balance_zero 1 "USD" none ledger_db ledger_db-IsLedger (λ other. absurd (cc other), tt)

-- The groceries stand at 12.50.
groceries_balance :
    balance_for_account 1 20 "USD" none false ledger_db
    ≡ record { coeff = pos 1_250_000_000; places = 8 }
unfolding balance_for_account quantize add ◌+ℤ◌ shift times_ten
groceries_balance = refl
