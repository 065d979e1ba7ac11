-- ===== src/Storage/Queries/TrialBalance.antt =====
-- The trial balance against the balances of accounts, and against the ledger's invariant.
use tulip_accounting.Prelude.{
  ◌≡◌, inl, inr, refl, ap, ◌∙◌, arith, Bool, true, false, ◌&&◌, String, str_eq, eq_iff, Option,
  List, [], ◌∷◌, ◌++◌, ◌==◌, All, if◌then◌else◌, keep, Bool-cases,
}
use tulip_accounting.Prelude.Int.{pos}
use tulip_accounting.Decimal.{Decimal, nought, add}
use tulip_accounting.Decimal.Arithmetic.{add_comm, add_assoc, nought-add, add_zeros}
use tulip_accounting.Transactions.{Uuid, Date, in_ledger}
use tulip_accounting.Transactions.Balance.{sum_in, sum_in-append, tally_iff}
use tulip_accounting.Storage.Rows.{Db, Header, PostingRow, is_posting_of}
use tulip_accounting.Storage.Triggers.{row_amounts, is_balanced_in}
use tulip_accounting.Storage.Ledger.Balance.{IsBooked, IsLedger}
use tulip_accounting.Storage.Queries.{
  counts, paired, joined, sum_on, balance_for_account, TrialBalanceRow, into_group, grouped,
  flagged, trial_balance,
}

-- The balance of the row of an account and a currency; without such a row, nought.
abbrev pub balance_at : Uuid → String → List TrialBalanceRow → Decimal
balance_at account_id currency [] = nought
balance_at account_id currency (r ∷ rs) =
    if r.account_id == account_id && str_eq r.currency currency
    then r.balance
    else balance_at account_id currency rs

-- The sum of a currency's column.
abbrev pub column : String → List TrialBalanceRow → Decimal
column currency [] = nought
column currency (r ∷ rs) =
    if str_eq r.currency currency then add r.balance (column currency rs) else column currency rs

add-nought : (a : Decimal) → add a nought ≡ a
add-nought a = add_comm a nought ∙ nought-add a

balance_at-into_group :
    (account_id : Uuid) (currency : String) (h : Header) (p : PostingRow)
    (rs : List TrialBalanceRow)
    → balance_at account_id currency (into_group (h, p) rs) ≡ (
        if p.account_id == account_id && str_eq p.currency currency
        then add p.amount (balance_at account_id currency rs)
        else balance_at account_id currency rs)
balance_at-into_group a c h p [] = ground (arith, add-nought p.amount)
balance_at-into_group a c h p (r ∷ rs) = ground (
  arith,
  eq_iff r.currency p.currency,
  eq_iff r.currency c,
  eq_iff p.currency c,
  add_comm r.balance p.amount,
  balance_at-into_group a c h p rs,
)

column-into_group :
    (c : String) (h : Header) (p : PostingRow) (rs : List TrialBalanceRow)
    → column c (into_group (h, p) rs)
      ≡ (if str_eq p.currency c then add p.amount (column c rs) else column c rs)
column-into_group c h p [] = ground (arith, add-nought p.amount)
column-into_group c h p (r ∷ rs) = ground (
  arith,
  eq_iff r.currency p.currency,
  eq_iff r.currency c,
  eq_iff p.currency c,
  add_comm r.balance p.amount,
  add_assoc p.amount r.balance (column c rs),
  add_comm p.amount (column c rs),
  add_assoc r.balance p.amount (column c rs),
  column-into_group c h p rs,
)

balance_at-grouped :
    (account_id : Uuid) (currency : String) (rows : List (Header × PostingRow))
    → balance_at account_id currency (grouped rows) ≡ sum_on account_id currency rows
balance_at-grouped a c [] = refl
balance_at-grouped a c ((h, p) ∷ rows) =
    balance_at-into_group a c h p (grouped rows) ∙ rw (balance_at-grouped a c rows) refl

balance_at-flagged :
    (account_id : Uuid) (currency : String) (include_pending : Bool) (rs : List TrialBalanceRow)
    → balance_at account_id currency (flagged include_pending rs)
      ≡ balance_at account_id currency rs
balance_at-flagged a c include [] = refl
balance_at-flagged a c include (r ∷ rs) = ground (arith, balance_at-flagged a c include rs)

column-flagged :
    (c : String) (include_pending : Bool) (rs : List TrialBalanceRow)
    → column c (flagged include_pending rs) ≡ column c rs
column-flagged c include [] = refl
column-flagged c include (r ∷ rs) = ground (arith, column-flagged c include rs)

-- For every account and currency, the trial balance shows what the query for the account's balance
-- gives under the same date and pending filters; where it has no row, that balance is zero.
pub trial_balance_lem :
    (household_id account_id : Uuid) (currency : String) (as_of : Option Date)
    (include_pending : Bool) (db : Db)
    → balance_at account_id currency (trial_balance household_id as_of include_pending db)
      ≡ balance_for_account household_id account_id currency as_of include_pending db
unfolding trial_balance balance_for_account
trial_balance_lem hh a c as_of include db =
    balance_at-flagged a c include (grouped (joined hh as_of include db.postings db.headers))
    ∙ balance_at-grouped a c (joined hh as_of include db.postings db.headers)

-- The postings of a join.
abbrev rows_of : List (Header × PostingRow) → List PostingRow
rows_of [] = []
rows_of ((h, p) ∷ rows) = p ∷ rows_of rows

rows_of-paired : (h : Header) (ps : List PostingRow) → rows_of (paired h ps) ≡ ps
rows_of-paired h [] = refl
rows_of-paired h (p ∷ ps) = ap (λ qs. p ∷ qs) (rows_of-paired h ps)

rows_of-append :
    (xs ys : List (Header × PostingRow)) → rows_of (xs ++ ys) ≡ rows_of xs ++ rows_of ys
rows_of-append [] ys = refl
rows_of-append ((h, p) ∷ xs) ys = ap (λ qs. p ∷ qs) (rows_of-append xs ys)

row_amounts-append :
    (xs ys : List PostingRow) → row_amounts (xs ++ ys) ≡ row_amounts xs ++ row_amounts ys
row_amounts-append [] ys = refl
row_amounts-append (p ∷ xs) ys = rw (row_amounts-append xs ys) refl

column-grouped :
    (c : String) (rows : List (Header × PostingRow))
    → column c (grouped rows) ≡ sum_in c (row_amounts (rows_of rows))
column-grouped c [] = refl
column-grouped c ((h, p) ∷ rows) =
    column-into_group c h p (grouped rows) ∙ rw (column-grouped c rows) refl

-- No transaction of another household has the identifier that a posting of this one names.
abbrev pub IsApart : Uuid → List PostingRow → Header → Type 0
IsApart household_id postings h =
    (h.household_id == household_id) ≡ false → keep (is_posting_of household_id h.id) postings ≡ []

-- What a header adds to the join sums to zero.
booked_zero :
    (household_id : Uuid) (c : String) (ps : List PostingRow) (h : Header)
    → IsBooked ps h
    → IsApart household_id ps h
    → in_ledger h.status ≡ true
    → (sum_in c (row_amounts (keep (is_posting_of household_id h.id) ps))).coeff ≡ pos 0
unfolding is_balanced_in
booked_zero hh c ps h booked apart counted = elim (Bool-cases (h.household_id == hh)) [
  | inl own ↦
      let same : h.household_id ≡ hh = ground arith in
      rw (← same) (
        (tally_iff (row_amounts (keep (is_posting_of h.household_id h.id) ps))).0 (booked counted)
          c)
  | inr other ↦ rw (apart other) refl
]

joined_zero :
    (household_id : Uuid) (c : String) (as_of : Option Date) (ps : List PostingRow)
    (hs : List Header)
    → All (IsBooked ps) hs
    → All (IsApart household_id ps) hs
    → (sum_in c (row_amounts (rows_of (joined household_id as_of false ps hs)))).coeff ≡ pos 0
unfolding joined
joined_zero hh c as_of ps [] led apart = refl
joined_zero hh c as_of ps (h ∷ hs) (booked, led) (own, apart) =
    let own_rows = keep (is_posting_of hh h.id) ps in
    let rest = joined hh as_of false ps hs in
    let smaller = joined_zero hh c as_of ps hs led apart in
    elim (Bool-cases (counts as_of false h)) [
      | inl counted ↦
          rw
            (
              counted,
              rows_of-append (paired h own_rows) rest,
              rows_of-paired h own_rows,
              row_amounts-append own_rows (rows_of rest),
              sum_in-append c (row_amounts own_rows) (row_amounts (rows_of rest)),
            )
            (add_zeros (sum_in c (row_amounts own_rows)) (sum_in c (row_amounts (rows_of rest)))
              (booked_zero hh c ps h booked own (ground arith)) smaller)
      | inr skipped ↦ rw skipped smaller
    ]

-- In a ledger where posted transactions are balanced, the trial balance of posted transactions sums to
-- zero in every currency at every date, if no transaction of another household has the identifier of
-- one of this household.
pub trial_balance_zero :
    (household_id : Uuid) (currency : String) (as_of : Option Date) (db : Db)
    → IsLedger db
    → All (IsApart household_id db.postings) db.headers
    → (column currency (trial_balance household_id as_of false db)).coeff ≡ pos 0
unfolding trial_balance
trial_balance_zero hh c as_of db led apart =
    let rows = joined hh as_of false db.postings db.headers in
    rw (column-flagged c false (grouped rows), column-grouped c rows)
      (joined_zero hh c as_of db.postings db.headers led apart)
