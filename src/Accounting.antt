-- ===== src/Accounting.antt =====
-- tulip_core/accounting/engine.py: posting, reversal and the balancing of currencies.
-- `uuid4` is a parameter: the k-th identifier that a call draws is `fresh k`.
pub mod Valid
pub mod Post
pub mod Reversal
pub mod Fx
use tulip_accounting.Prelude.{
  ℕ, ◌+◌, Bool, true, false, not, ◌&&◌, String, Option, none, some, List, [], ◌∷◌, ◌++◌, ◌==◌,
  if◌then◌else◌, keep, head?,
}
use tulip_accounting.Prelude.Results.{Error, Result, ok, err, raise_if, ◌>>◌, ◌>>=◌}
use tulip_accounting.Prelude.Dict.{Dict}
use tulip_accounting.Decimal.{Decimal, neg, is_zero}
use tulip_accounting.Money.{Money, money}
use tulip_accounting.Transactions.{
  Uuid, Date, Posting, check_posting, Transaction, TransactionStatus, in_ledger, check_transaction,
  is_balanced, balance_per_currency,
}
use tulip_accounting.Periods.{Period, contains, is_soft_closed}

-- The reversed posting of `build_reversal`'s loop.
unfoldable pub flip_posting : Uuid → Posting → Result Posting
unfolding check_posting money
flip_posting new_id p = do
  amount ← money (neg p.amount.amount) p.amount.currency
  check_posting (record {
    id = new_id;
    account_id = p.account_id;
    amount = amount;
    pool_id = p.pool_id;
    memo = p.memo;
    fx_rate = none;
    fx_amount = none;
  })

unfoldable pub flip_postings : (ℕ → Uuid) → ℕ → List Posting → Result (List Posting)
unfolding flip_posting
flip_postings fresh k [] = ok []
flip_postings fresh k (p ∷ ps) = do
  flipped ← flip_posting (fresh k) p
  rest ← flip_postings fresh (k + 1) ps
  ok (flipped ∷ rest)

-- `build_reversal`
unfoldable pub build_reversal :
    (ℕ → Uuid) → Transaction → Uuid → Date → String → Option Uuid → Result Transaction
unfolding flip_postings check_transaction
build_reversal fresh source reversal_id reversal_date description actor = do
  raise_if (not (in_ledger source.status)) Error.not_voidable
  flipped ← flip_postings fresh 0 source.postings
  check_transaction (record {
    id = reversal_id;
    household_id = source.household_id;
    date = reversal_date;
    description = description;
    postings = flipped;
    status = TransactionStatus.pending;
    reference = none;
    created_by_user_id = actor;
    voided_by_transaction_id = none;
  })

-- The comprehension's condition on a period.
abbrev pub covers : Transaction → Period → Bool
covers tx p = p.household_id == tx.household_id && contains p tx.date

abbrev pub is_posted : TransactionStatus → Bool
is_posted TransactionStatus.posted = true
is_posted TransactionStatus.pending = false
is_posted TransactionStatus.reconciled = false

-- `matching[0]`, and the gate on it.
abbrev pub period_gate : Option Period → Bool → Result (Unit {0})
period_gate none override = err Error.no_period
period_gate (some p) override = raise_if (is_soft_closed p && not override) Error.closed_period

abbrev pub as_posted : Transaction → Transaction
as_posted tx = record tx { status = TransactionStatus.posted }

-- `post_transaction`. `replace` runs the constructor's checks again.
unfoldable pub post_transaction : Transaction → List Period → Bool → Result Transaction
unfolding is_balanced check_transaction
post_transaction tx periods override = if is_posted tx.status then ok tx else do
  raise_if (not (is_balanced tx)) Error.unbalanced_transaction
  period_gate (head? (keep (covers tx) periods)) override
  check_transaction (as_posted tx)

-- The offsetting posting of one unbalanced currency.
unfoldable pub fx_posting : Uuid → Uuid → String → Decimal → Result Posting
unfolding check_posting money
fx_posting new_id account currency balance = do
  amount ← money (neg balance) currency
  check_posting (record {
    id = new_id;
    account_id = account;
    amount = amount;
    pool_id = none;
    memo = some "FX gain/loss balancing";
    fx_rate = none;
    fx_amount = none;
  })

-- The loop over the balances, which skips what is zero.
unfoldable pub fx_postings : (ℕ → Uuid) → ℕ → Uuid → Dict Decimal → Result (List Posting)
unfolding fx_posting
fx_postings fresh k account [] = ok []
fx_postings fresh k account ((currency, balance) ∷ sums) =
    let rest = fx_postings fresh (if is_zero balance then k else k + 1) account sums in
    if is_zero balance
    then rest
    else do p ← fx_posting (fresh k) account currency balance; ps ← rest; ok (p ∷ ps)

-- `balance_with_fx_postings`
unfoldable pub balance_with_fx_postings : (ℕ → Uuid) → Transaction → Uuid → Result Transaction
unfolding is_balanced fx_postings check_transaction
balance_with_fx_postings fresh tx account = if is_balanced tx then ok tx else do
  added ← fx_postings fresh 0 account (balance_per_currency tx)
  check_transaction (record tx { postings = tx.postings ++ added })
