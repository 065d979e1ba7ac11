-- ===== src/Transactions.antt =====
-- tulip_core/transactions: postings and transactions with their constructors' checks.
-- A UUID is a number (Python compares UUIDs by their integers), a date its ordinal.
pub mod Balance
pub mod Order
use tulip_accounting.Prelude.{
  ℕ, Bool, true, false, not, ◌&&◌, ◌||◌, String, Option, none, some, List, [], ◌∷◌, ltb, length,
  all_of, if◌then◌else◌, str_eq,
}
use tulip_accounting.Prelude.Results.{Error, Result, ok, err, raise_if, ◌>>◌, ◌>>=◌}
use tulip_accounting.Prelude.Dict.{Dict, lookup, insert}
use tulip_accounting.Decimal.{Decimal, nought, add, is_zero, not_positive}
use tulip_accounting.Money.{Money}

abbrev pub Uuid : Type 0
Uuid = ℕ

abbrev pub Date : Type 0
Date = ℕ

-- `Posting`
pub record Posting : Type 0 where
  pub id : Uuid
  pub account_id : Uuid
  pub amount : Money
  pub pool_id : Option Uuid
  pub memo : Option String
  pub fx_rate : Option Decimal
  pub fx_amount : Option Money

abbrev pub is_some {ℓ} : {A : Type ℓ} → Option A → Bool
is_some none = false
is_some (some a) = true

abbrev rate_not_positive : Option Decimal → Bool
rate_not_positive none = false
rate_not_positive (some rate) = not_positive rate

abbrev same_currency : Option Money → String → Bool
same_currency none c = false
same_currency (some m) c = str_eq m.currency c

-- `Posting.__post_init__`
unfoldable pub check_posting : Posting → Result Posting
check_posting p = do
  raise_if
      ((is_some p.fx_rate && not (is_some p.fx_amount))
        || (not (is_some p.fx_rate) && is_some p.fx_amount))
      Error.fx_incomplete
  raise_if (rate_not_positive p.fx_rate) Error.fx_rate_not_positive
  raise_if (same_currency p.fx_amount p.amount.currency) Error.fx_same_currency
  ok p

-- `TransactionStatus`
pub data TransactionStatus : Type 0 where
  pending posted reconciled : TransactionStatus

-- `Transaction`
pub record Transaction : Type 0 where
  pub id : Uuid
  pub household_id : Uuid
  pub date : Date
  pub description : String
  pub postings : List Posting
  pub status : TransactionStatus
  pub reference : Option String
  pub created_by_user_id : Option Uuid
  pub voided_by_transaction_id : Option Uuid

-- What the `defaultdict` gives for a missing key.
abbrev pub or_nought : Option Decimal → Decimal
or_nought none = nought
or_nought (some d) = d

-- `sums[c] += x` on a `defaultdict` of zeros.
abbrev pub bump : String → Decimal → Dict Decimal → Dict Decimal
bump c x sums = insert c (add (or_nought (lookup c sums)) x) sums

-- The loop over (currency, amount) pairs that both ledgers run.
unfoldable pub tally : List Money → Dict Decimal → Dict Decimal
tally [] sums = sums
tally (m ∷ ms) sums = tally ms (bump m.currency m.amount sums)

abbrev pub amounts : List Posting → List Money
amounts [] = []
amounts (p ∷ ps) = p.amount ∷ amounts ps

-- `Transaction.balance_per_currency`
unfoldable pub balance_per_currency : Transaction → Dict Decimal
unfolding tally
balance_per_currency tx = tally (amounts tx.postings) []

abbrev pub entry_is_zero : String × Decimal → Bool
entry_is_zero (c, d) = is_zero d

-- `Transaction.is_balanced`
unfoldable pub is_balanced : Transaction → Bool
unfolding balance_per_currency
is_balanced tx = all_of entry_is_zero (balance_per_currency tx)

-- `status in (POSTED, RECONCILED)`
abbrev pub in_ledger : TransactionStatus → Bool
in_ledger TransactionStatus.pending = false
in_ledger TransactionStatus.posted = true
in_ledger TransactionStatus.reconciled = true

-- `Transaction.__post_init__`. `unbalanced` is empty exactly if every balance is zero.
unfoldable pub check_transaction : Transaction → Result Transaction
unfolding is_balanced
check_transaction tx = do
  raise_if (ltb (length tx.postings) 2) Error.too_few_postings
  raise_if (in_ledger tx.status && not (is_balanced tx)) Error.not_balanced
  raise_if (not (in_ledger tx.status) && is_some tx.voided_by_transaction_id) Error.pending_voided
  ok tx
