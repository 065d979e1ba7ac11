-- ===== src/Storage/Budget/Queries.antt =====
-- repositories/shadow_transaction.py: the queries over pools. All of them join the postings of the
-- household with the shadow transactions that are posted. Sums are exact, as those of the stored
-- integers are; a `GROUP BY` leaves the order of the groups open.
pub mod Settled
pub mod Conserved
pub mod Undone
use tulip_accounting.Prelude.{
  Bool, true, false, not, ◌&&◌, String, str_eq, Option, none, some, List, [], ◌∷◌, ◌++◌, ◌==◌, leb,
  keep, if◌then◌else◌,
}
use tulip_accounting.Prelude.Dict.{Dict}
use tulip_accounting.Decimal.{Decimal, nought, add, neg, not_positive, is_negative}
use tulip_accounting.Money.{Money}
use tulip_accounting.Transactions.{Uuid, Date, tally, bump}
use tulip_accounting.Allocation.Shadow.{ShadowTxReason, ShadowTxStatus, is_shadow_posted}
use tulip_accounting.Storage.Budget.{Budget, ShadowHeader, ShadowRow, is_leg_of, leg_amounts}

-- `ShadowPosting JOIN ShadowTransaction`, on the postings of the household that meet a test, of the posted
-- transactions that meet another
unfoldable pub posted_legs :
    Uuid
    → (ShadowHeader → Bool)
    → (ShadowRow → Bool)
    → List ShadowRow
    → List ShadowHeader
    → List ShadowRow
posted_legs household_id of_tx of_leg rows [] = []
posted_legs household_id of_tx of_leg rows (h ∷ hs) =
    let rest = posted_legs household_id of_tx of_leg rows hs in
    if is_shadow_posted h.status && of_tx h
    then keep of_leg (keep (is_leg_of household_id h.id) rows) ++ rest
    else rest

-- A filter that `None` leaves out
abbrev pub up_to : Option Date → ShadowHeader → Bool
up_to none h = true
up_to (some as_of) h = leb h.date as_of

abbrev pub in_currency : Option String → ShadowRow → Bool
in_currency none p = true
in_currency (some currency) p = str_eq p.currency currency

-- `balance_for_pool`
unfoldable pub balance_for_pool : Uuid → Uuid → Option String → Option Date → Budget → Dict Decimal
unfolding posted_legs tally
balance_for_pool household_id pool_id currency as_of b =
    tally
      (leg_amounts (
        posted_legs household_id (up_to as_of) (λ p. p.pool_id == pool_id && in_currency currency p)
          b.shadow_rows b.shadow_headers))
      []

-- One amount more in the dict of a pool, as `setdefault` finds or makes it.
abbrev pub into_pool : ShadowRow → List (Uuid × Dict Decimal) → List (Uuid × Dict Decimal)
into_pool p [] = (p.pool_id, bump p.currency p.amount []) ∷ []
into_pool p ((id, sums) ∷ rest) =
    if id == p.pool_id
    then (id, bump p.currency p.amount sums) ∷ rest
    else (id, sums) ∷ into_pool p rest

abbrev pub by_pool : List ShadowRow → List (Uuid × Dict Decimal) → List (Uuid × Dict Decimal)
by_pool [] sums = sums
by_pool (p ∷ ps) sums = by_pool ps (into_pool p sums)

abbrev pub is_among : List Uuid → Uuid → Bool
is_among [] id = false
is_among (k ∷ ks) id = if k == id then true else is_among ks id

-- `balances_for_pools`
unfoldable pub balances_for_pools :
    Uuid → List Uuid → Option Date → Budget → List (Uuid × Dict Decimal)
unfolding posted_legs
balances_for_pools household_id pool_ids as_of b =
    by_pool
      (posted_legs household_id (up_to as_of) (λ p. is_among pool_ids p.pool_id) b.shadow_rows
        b.shadow_headers)
      []

abbrev pub is_inflow : ShadowTxReason → Bool
is_inflow ShadowTxReason.budget_inflow = true
is_inflow _ = false

abbrev pub sum_of : List ShadowRow → Decimal
sum_of [] = nought
sum_of (p ∷ ps) = add p.amount (sum_of ps)

-- `inflow_since`
unfoldable pub inflow_since : Uuid → String → Date → Budget → Decimal
unfolding posted_legs
inflow_since household_id currency since b = sum_of (
    posted_legs household_id (λ h. is_inflow h.reason && leb since h.date)
      (λ p. str_eq p.currency currency && not (not_positive p.amount)) b.shadow_rows
      b.shadow_headers)

-- One sum more under a date.
abbrev pub into_day : Date → Decimal → List (Date × Decimal) → List (Date × Decimal)
into_day day amount [] = (day, amount) ∷ []
into_day day amount ((d, sum) ∷ rest) =
    if d == day then (d, add sum amount) ∷ rest else (d, sum) ∷ into_day day amount rest

abbrev pub into_day_all : Date → List ShadowRow → List (Date × Decimal) → List (Date × Decimal)
into_day_all day [] days = days
into_day_all day (p ∷ ps) days = into_day_all day ps (into_day day p.amount days)

-- The sums by date over the posted transactions of a span of dates.
unfoldable pub daily :
    Uuid
    → Date
    → Date
    → (ShadowRow → Bool)
    → List ShadowRow
    → List ShadowHeader
    → List (Date × Decimal)
daily household_id from_date to_date of_leg rows [] = []
daily household_id from_date to_date of_leg rows (h ∷ hs) =
    let rest = daily household_id from_date to_date of_leg rows hs in
    if is_shadow_posted h.status && leb from_date h.date && leb h.date to_date
    then into_day_all h.date (keep of_leg (keep (is_leg_of household_id h.id) rows)) rest
    else rest

abbrev pub absolute : List (Date × Decimal) → List (Date × Decimal)
absolute [] = []
absolute ((d, sum) ∷ days) = (d, if is_negative sum then neg sum else sum) ∷ absolute days

-- `daily_spend_series_for_pool`
unfoldable pub daily_spend_series_for_pool :
    Uuid → Uuid → String → Date → Date → Budget → List (Date × Decimal)
unfolding daily
daily_spend_series_for_pool household_id pool_id currency from_date to_date b = absolute (
    daily household_id from_date to_date
      (λ p. p.pool_id == pool_id && str_eq p.currency currency && is_negative p.amount)
      b.shadow_rows b.shadow_headers)

-- `daily_contribution_series_for_pool`
unfoldable pub daily_contribution_series_for_pool :
    Uuid → Uuid → String → Date → Date → Budget → List (Date × Decimal)
unfolding daily
daily_contribution_series_for_pool household_id pool_id currency from_date to_date b =
    daily household_id from_date to_date
      (λ p. p.pool_id == pool_id && str_eq p.currency currency && not (not_positive p.amount))
      b.shadow_rows b.shadow_headers
