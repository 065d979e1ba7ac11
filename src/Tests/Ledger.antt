-- ===== src/Tests/Ledger.antt =====
-- Transactions and the accounting engine.

use tulip_accounting.Prelude.{
  ◌≡◌, ◌↔◌, refl, true, false, String, none, some, List, [], ◌∷◌, ◌++◌, All,
}
use tulip_accounting.Prelude.Int.{pos, negsuc, ◌+ℤ◌, times_ten}
use tulip_accounting.Prelude.Results.{Error, ok, err, ◌>>=◌}
use tulip_accounting.Decimal.{add, shift}
use tulip_accounting.Currency.{from_code}
use tulip_accounting.Transactions.{
  Uuid, Posting, Transaction, TransactionStatus, amounts, is_balanced, balance_per_currency,
  check_transaction,
}
use tulip_accounting.Transactions.Balance.{sum_in, is_balanced_iff}
use tulip_accounting.Periods.{PeriodStatus}
use tulip_accounting.Accounting.{
  build_reversal, post_transaction, balance_with_fx_postings, as_posted,
}
use tulip_accounting.Accounting.Valid.{IsValid}
use tulip_accounting.Accounting.Post.{IsOpen, post_transaction_iff}
use tulip_accounting.Accounting.Reversal.{on_account, reversal, build_reversal_lem, post-reversal}
use tulip_accounting.Accounting.Fx.{balance_with_fx_postings_lem}
use tulip_accounting.Tests.Data.{
  usd, posting, transaction, shop_postings, groceries, groceries_pending, exchange, month,
  fresh_ids,
}

groceries-IsValid : IsValid groceries
unfolding check_transaction add shift times_ten ◌+ℤ◌ from_code
groceries-IsValid = record { checked = refl; known = (refl, (refl, (refl, tt))) }

groceries_pending-IsValid : IsValid groceries_pending
unfolding check_transaction from_code
groceries_pending-IsValid = record { checked = refl; known = (refl, (refl, (refl, tt))) }

exchange-IsValid : IsValid exchange
unfolding check_transaction from_code
exchange-IsValid = record { checked = refl; known = (refl, (refl, tt)) }

balances :
    balance_per_currency exchange
    ≡ ("USD", (usd (negsuc 1099)).amount) ∷ ("EUR", (usd (pos 1000)).amount) ∷ []
unfolding balance_per_currency add shift times_ten ◌+ℤ◌
balances = refl

-- Posting is refused without a period, with a closed one, and for what does not balance.
refused :
    (post_transaction groceries_pending [] false ≡ err Error.no_period)
    × (post_transaction groceries_pending (month PeriodStatus.soft_closed ∷ []) false
        ≡ err Error.closed_period)
    × (post_transaction groceries_pending (month PeriodStatus.soft_closed ∷ []) true ≡ ok groceries)
    × (post_transaction exchange (month PeriodStatus.opened ∷ []) false
        ≡ err Error.unbalanced_transaction)
unfolding post_transaction add shift times_ten ◌+ℤ◌
refused = (refl, refl, refl, refl)

-- A reconciled transaction is made a posted one.
reconciled_again :
    post_transaction
      (transaction 100 shop_postings TransactionStatus.reconciled)
      (month PeriodStatus.opened ∷ [])
      false
    ≡ ok groceries
unfolding post_transaction add shift times_ten ◌+ℤ◌
reconciled_again = refl

is_balanced_iff_example :
    (is_balanced exchange ≡ true)
    ↔ ((c : String) → (sum_in c (amounts exchange.postings)).coeff ≡ pos 0)
is_balanced_iff_example = is_balanced_iff exchange

abbrev swapped : Transaction
swapped =
    transaction 110
      (posting 112 11 (usd (pos 1100)) none ∷ posting 111 10 (usd (negsuc 1099)) none ∷ [])
      TransactionStatus.posted

abbrev unswapped : Transaction
unswapped =
    transaction 111
      (posting 111 10 (usd (negsuc 1099)) none ∷ posting 112 11 (usd (pos 1100)) none ∷ [])
      TransactionStatus.pending

build_reversal_lem_example :
    (r : Transaction) × (build_reversal fresh_ids groceries 99 738_020 "Void" (some 7) ≡ ok r)
    × (r.status ≡ TransactionStatus.pending)
    × (is_balanced r ≡ true)
    × ((a : Uuid) (c : String)
        → (add
            (sum_in c (amounts (on_account a groceries.postings)))
            (sum_in c (amounts (on_account a r.postings)))).coeff
          ≡ pos 0)
build_reversal_lem_example =
    build_reversal_lem fresh_ids groceries 99 738_020 "Void" (some 7) groceries-IsValid refl

post-reversal_example :
    ((build_reversal fresh_ids groceries 99 738_020 "Void" (some 7) >>= λ t.
    post_transaction t (month PeriodStatus.opened ∷ []) false)
      ≡ ok (as_posted (reversal fresh_ids groceries 99 738_020 "Void" (some 7))))
    ↔ IsOpen
        (reversal fresh_ids groceries 99 738_020 "Void" (some 7))
        (month PeriodStatus.opened ∷ [])
        false
post-reversal_example =
    post-reversal fresh_ids groceries 99 738_020 "Void" (some 7) (month PeriodStatus.opened ∷ [])
      false groceries-IsValid refl

balance_with_fx_postings_lem_example :
    (t : Transaction) × (added : List Posting) × (balance_with_fx_postings fresh_ids exchange 40
      ≡ ok t)
    × (is_balanced t ≡ true)
    × (t ≡ record exchange { postings = exchange.postings ++ added })
    × All (λ p. p.account_id ≡ 40) added
balance_with_fx_postings_lem_example =
    balance_with_fx_postings_lem fresh_ids exchange 40 exchange-IsValid

post_transaction_iff_example :
    (post_transaction groceries_pending (month PeriodStatus.opened ∷ []) false
      ≡ ok (as_posted groceries_pending))
    ↔ ((is_balanced groceries_pending ≡ true)
        × IsOpen groceries_pending (month PeriodStatus.opened ∷ []) false)
post_transaction_iff_example =
    post_transaction_iff groceries_pending (month PeriodStatus.opened ∷ []) false
      groceries_pending-IsValid refl
