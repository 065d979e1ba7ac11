-- ===== src/Storage/Queries.antt =====
-- repositories/transaction.py: the queries `list_headers`, `list_postings`, `balance_for_account`,
-- `count_pending_transactions` and `trial_balance`. Amounts are summed exactly, as NUMERIC is; the
-- order of the groups of a `GROUP BY` is left open by SQL.
pub mod TrialBalance
use tulip_accounting.Prelude.{
  ℕ, ◌+◌, Bool, true, false, not, ◌&&◌, ◌||◌, String, str_eq, Option, none, some, List, [], ◌∷◌,
  ◌++◌, ◌==◌, ltb, leb, keep, if◌then◌else◌, length,
}
use tulip_accounting.Decimal.{Decimal, nought, add}
use tulip_accounting.Transactions.{Uuid, Date, TransactionStatus, in_ledger}
use tulip_accounting.Storage.Tables.{exists}
use tulip_accounting.Storage.Triggers.{same_status}
use tulip_accounting.Storage.Ledger.{is_pending}
use tulip_accounting.Storage.Rows.{Db, Header, PostingRow, is_posting_of}

-- A filter that `None` leaves out
abbrev pub since : Option Date → Header → Bool
since none h = true
since (some from_date) h = leb from_date h.date

abbrev pub until : Option Date → Header → Bool
until none h = true
until (some to_date) h = leb h.date to_date

abbrev pub with_status : Option TransactionStatus → Header → Bool
with_status none h = true
with_status (some status) h = same_status h.status status

-- `Transaction.id.in_(select(Posting.transaction_id)...)`
abbrev pub on_account : Uuid → Option Uuid → List PostingRow → Header → Bool
on_account household_id none postings h = true
on_account household_id (some account_id) postings h =
    exists
      (λ p.
        p.household_id == household_id && p.account_id == account_id && p.transaction_id == h.id)
      postings

-- `order_by(date.desc(), created_at.desc())`
abbrev pub is_newer : Header → Header → Bool
is_newer a b = ltb b.date a.date || (a.date == b.date && leb b.created_at a.created_at)

abbrev pub by_newest : Header → List Header → List Header
by_newest h [] = h ∷ []
by_newest h (k ∷ ks) = if is_newer h k then h ∷ k ∷ ks else k ∷ by_newest h ks

abbrev pub newest_first : List Header → List Header
newest_first [] = []
newest_first (h ∷ hs) = by_newest h (newest_first hs)

-- `list_headers`, called without a prefix of an identifier and without a limit
unfoldable pub list_headers :
    Uuid → Option Uuid → Option Date → Option Date → Option TransactionStatus → Db → List Header
list_headers household_id account_id from_date to_date status db = newest_first (
    keep
      (λ h.
        h.household_id == household_id
        && on_account household_id account_id db.postings h
        && since from_date h
        && until to_date h
        && with_status status h)
      db.headers)

-- `list_postings`; the statement has no ORDER BY, and the order of the table stands for whichever comes
abbrev pub list_postings : Uuid → Uuid → Db → List PostingRow
list_postings household_id tx_id db = keep (is_posting_of household_id tx_id) db.postings

-- `status.in_(_balance_statuses(...))`
abbrev pub in_balance : Bool → TransactionStatus → Bool
in_balance include_pending status = in_ledger status || include_pending

-- A header that a balance query lets through
abbrev pub counts : Option Date → Bool → Header → Bool
counts as_of include_pending h = in_balance include_pending h.status && until as_of h

abbrev pub paired : Header → List PostingRow → List (Header × PostingRow)
paired h [] = []
paired h (p ∷ ps) = (h, p) ∷ paired h ps

-- `Posting JOIN Transaction ON Transaction.id = Posting.transaction_id`, on the postings of the household.
unfoldable pub joined :
    Uuid → Option Date → Bool → List PostingRow → List Header → List (Header × PostingRow)
joined household_id as_of include_pending postings [] = []
joined household_id as_of include_pending postings (h ∷ hs) =
    let rest = joined household_id as_of include_pending postings hs in
    if counts as_of include_pending h
    then paired h (keep (is_posting_of household_id h.id) postings) ++ rest
    else rest

-- `coalesce(sum(Posting.amount), 0)` over the rows on an account in a currency
abbrev pub sum_on : Uuid → String → List (Header × PostingRow) → Decimal
sum_on account_id currency [] = nought
sum_on account_id currency ((h, p) ∷ rows) =
    if p.account_id == account_id && str_eq p.currency currency
    then add p.amount (sum_on account_id currency rows)
    else sum_on account_id currency rows

-- `balance_for_account`
unfoldable pub balance_for_account : Uuid → Uuid → String → Option Date → Bool → Db → Decimal
unfolding joined
balance_for_account household_id account_id currency as_of include_pending db =
    sum_on account_id currency (joined household_id as_of include_pending db.postings db.headers)

-- `count_pending_transactions`
abbrev pub count_pending_transactions : Uuid → Option Date → Db → ℕ
count_pending_transactions household_id as_of db =
    length (
      keep (λ h. h.household_id == household_id && is_pending h.status && until as_of h) db.headers)

-- `TrialBalanceRow`
pub record TrialBalanceRow : Type 0 where
  pub account_id : Uuid
  pub currency : String
  pub balance : Decimal
  pub has_pending : Bool

-- `GROUP BY account_id, currency`: one row more in its group.
abbrev pub into_group : Header × PostingRow → List TrialBalanceRow → List TrialBalanceRow
into_group (h, p) [] =
    record {
      account_id = p.account_id;
      currency = p.currency;
      balance = p.amount;
      has_pending = is_pending h.status;
    }
    ∷ []
into_group (h, p) (r ∷ rs) =
    if r.account_id == p.account_id && str_eq r.currency p.currency
    then record r {
      balance = add r.balance p.amount;
      has_pending = r.has_pending || is_pending h.status;
    }
      ∷ rs
    else r ∷ into_group (h, p) rs

abbrev pub grouped : List (Header × PostingRow) → List TrialBalanceRow
grouped [] = []
grouped (row ∷ rows) = into_group row (grouped rows)

abbrev pub flagged : Bool → List TrialBalanceRow → List TrialBalanceRow
flagged include_pending [] = []
flagged include_pending (r ∷ rs) =
    record r { has_pending = include_pending && r.has_pending } ∷ flagged include_pending rs

-- `trial_balance`
unfoldable pub trial_balance : Uuid → Option Date → Bool → Db → List TrialBalanceRow
unfolding joined
trial_balance household_id as_of include_pending db =
    flagged include_pending
      (grouped (joined household_id as_of include_pending db.postings db.headers))
