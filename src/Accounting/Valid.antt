-- ===== src/Accounting/Valid.antt =====
-- What holds of a transaction that the constructors made.
use tulip_accounting.Prelude.{◌≤◌, ◌≡◌, true, length, All, arith}
use tulip_accounting.Prelude.Results.{ok}
use tulip_accounting.Money.{IsMoney}
use tulip_accounting.Transactions.{Transaction, in_ledger, check_transaction, is_balanced}
use tulip_accounting.Accounting.{as_posted}

-- The constructor accepted it, and its amounts are in known currencies.
pub record IsValid (tx : Transaction) : Type 0 where
  pub checked : check_transaction tx ≡ ok tx
  pub known : All (λ p. IsMoney p.amount) tx.postings

pub enough_postings : (tx : Transaction) → check_transaction tx ≡ ok tx → 2 ≤ length tx.postings
unfolding check_transaction
enough_postings tx h = ground arith

pub in_ledger-is_balanced :
    (tx : Transaction)
    → check_transaction tx ≡ ok tx
    → in_ledger tx.status ≡ true
    → is_balanced tx ≡ true
unfolding check_transaction
in_ledger-is_balanced tx h s = ground arith

-- A balanced transaction may be marked as posted.
pub check_transaction-as_posted :
    (tx : Transaction)
    → 2 ≤ length tx.postings
    → is_balanced tx ≡ true
    → check_transaction (as_posted tx) ≡ ok (as_posted tx)
unfolding check_transaction is_balanced
check_transaction-as_posted tx h b = ground arith
