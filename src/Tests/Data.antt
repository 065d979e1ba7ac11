-- ===== src/Tests/Data.antt =====
-- A small household: a bank account 10, an expense account 20 for groceries, and a month.
use tulip_accounting.Prelude.{ℕ, ◌+◌, Option, none, some, List, [], ◌∷◌}
use tulip_accounting.Prelude.Int.{ℤ, pos, negsuc}
use tulip_accounting.Decimal.{Decimal}
use tulip_accounting.Money.{Money}
use tulip_accounting.Transactions.{Uuid, Posting, Transaction, TransactionStatus}
use tulip_accounting.Periods.{Period, PeriodStatus}

abbrev pub decimal : ℤ → ℕ → Decimal
decimal c p = record { coeff = c; places = p }

abbrev pub usd : ℤ → Money
usd cents = record { amount = decimal cents 2; currency = "USD" }

abbrev pub eur : ℤ → Money
eur cents = record { amount = decimal cents 2; currency = "EUR" }

abbrev pub posting : Uuid → Uuid → Money → Option Uuid → Posting
posting id account amount pool = record {
  id = id;
  account_id = account;
  amount = amount;
  pool_id = pool;
  memo = none;
  fx_rate = none;
  fx_amount = none;
}

abbrev pub transaction : Uuid → List Posting → TransactionStatus → Transaction
transaction id postings status = record {
  id = id;
  household_id = 1;
  date = 738_010;
  description = "Corner shop";
  postings = postings;
  status = status;
  reference = none;
  created_by_user_id = some 7;
  voided_by_transaction_id = none;
}

-- 12.50 USD of groceries, in two parts tagged with envelopes 31 and 32.
abbrev pub shop_postings : List Posting
shop_postings =
    posting 101 20 (usd (pos 1000)) (some 31)
    ∷ posting 102 20 (usd (pos 250)) (some 32)
    ∷ posting 103 10 (usd (negsuc 1249)) none
    ∷ []

abbrev pub groceries : Transaction
groceries = transaction 100 shop_postings TransactionStatus.posted

abbrev pub groceries_pending : Transaction
groceries_pending = transaction 100 shop_postings TransactionStatus.pending

-- 10.00 EUR for 11.00 USD: neither currency balances.
abbrev pub exchange : Transaction
exchange =
    transaction 110
      (posting 111 10 (usd (negsuc 1099)) none ∷ posting 112 11 (eur (pos 1000)) none ∷ [])
      TransactionStatus.pending

abbrev pub month : PeriodStatus → Period
month status = record {
  id = 60;
  household_id = 1;
  start_date = 738_000;
  end_date = 738_030;
  status = status;
}

abbrev pub fresh_ids : ℕ → Uuid
fresh_ids k = 500 + k
