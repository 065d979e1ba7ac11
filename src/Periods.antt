-- ===== src/Periods.antt =====
-- tulip_core/periods/period.py: an accounting period and the dates that it covers.
use tulip_accounting.Prelude.{◌≤◌, ◌≡◌, ◌↔◌, Bool, true, false, ◌&&◌, ltb, leb, arith}
use tulip_accounting.Prelude.Results.{Error, Result, ok, raise_if, ◌>>◌}
use tulip_accounting.Transactions.{Uuid, Date}

-- `PeriodStatus`
pub data PeriodStatus : Type 0 where
  opened soft_closed : PeriodStatus

pub record Period : Type 0 where
  pub id : Uuid
  pub household_id : Uuid
  pub start_date : Date
  pub end_date : Date
  pub status : PeriodStatus

-- `Period.__post_init__`
unfoldable pub check_period : Period → Result Period
check_period p = do raise_if (ltb p.end_date p.start_date) Error.inverted_period; ok p

abbrev pub status_is_soft_closed : PeriodStatus → Bool
status_is_soft_closed PeriodStatus.opened = false
status_is_soft_closed PeriodStatus.soft_closed = true

-- `Period.is_soft_closed`
abbrev pub is_soft_closed : Period → Bool
is_soft_closed p = status_is_soft_closed p.status

-- `Period.contains`
abbrev pub contains : Period → Date → Bool
contains p d = leb p.start_date d && leb d p.end_date

-- A period that was constructed covers its two ends, and the dates between them and no others.
pub check_period-contains :
    (p : Period) {q : Period}
    → check_period p ≡ ok q
    → (contains q q.start_date ≡ true)
      × (contains q q.end_date ≡ true)
      × ((d : Date) → (contains q d ≡ true) ↔ ((q.start_date ≤ d) × (d ≤ q.end_date)))
unfolding check_period
check_period-contains p h = (ground arith, ground arith, λ d. ground arith)
