-- ===== src/Insights.antt =====
-- tulip_core/insights/anomaly.py: anomalies of a daily series against the mean of a rolling window.
-- Division and the square root round as the decimal context says; they belong to Python's decimal
-- module and are parameters.
pub mod Windows
use tulip_accounting.Prelude.{
  ℕ, zero, suc, ◌+◌, ◌-◌, Option, none, some, List, [], ◌∷◌, length, ltb, leb, if◌then◌else◌, map,
}
use tulip_accounting.Prelude.Int.{pos}
use tulip_accounting.Prelude.Results.{Error, Result, ok, raise_if, ◌>>◌}
use tulip_accounting.Decimal.{Decimal, nought, add, sub, mul, le, eq}
use tulip_accounting.Transactions.{Date}

-- `AnomalySeverity`
pub data AnomalySeverity : Type 0 where
  info warning critical : AnomalySeverity

pub record Anomaly : Type 0 where
  pub sample_date : Date
  pub amount : Decimal
  pub rolling_mean : Decimal
  pub rolling_stdev : Decimal
  pub z_score : Decimal
  pub severity : AnomalySeverity

abbrev pub Sample : Type 0
Sample = Date × Decimal

-- `Decimal(n)` of a whole number.
abbrev pub whole : ℕ → Decimal
whole n = record { coeff = pos n; places = 0 }

-- `sum(values, start=acc)`
abbrev pub total : Decimal → List Decimal → Decimal
total acc [] = acc
total acc (x ∷ xs) = total (add acc x) xs

-- `_classify`
unfoldable pub classify : Decimal → AnomalySeverity
classify z =
    if le (whole 4) z
    then AnomalySeverity.critical
    else if le (whole 3) z
    then AnomalySeverity.warning
    else AnomalySeverity.info

-- `series[i]`, where it is.
abbrev pub get_elem? : List Sample → ℕ → Option Sample
get_elem? [] i = none
get_elem? (x ∷ xs) zero = some x
get_elem? (x ∷ xs) (suc i) = get_elem? xs i

abbrev pub take : ℕ → List Sample → List Sample
take zero xs = []
take (suc n) [] = []
take (suc n) (x ∷ xs) = x ∷ take n xs

abbrev pub drop : ℕ → List Sample → List Sample
drop zero xs = xs
drop (suc n) [] = []
drop (suc n) (x ∷ xs) = drop n xs

-- `series[start : stop]`
abbrev pub slice : ℕ → ℕ → List Sample → List Sample
slice start stop xs = take (stop - start) (drop start xs)

module _ (div : Decimal → Decimal → Decimal) (sqrt : Decimal → Decimal) where
  -- `_stdev`
  unfoldable pub stdev : List Decimal → Decimal → Decimal
  stdev values mean =
      if ltb (length values) 2
      then nought
      else let squares = map (λ v. mul (sub v mean) (sub v mean)) values in
        sqrt (div (total nought squares) (sub (whole (length values)) (whole 1)))

  -- The anomaly that a sample is against the window before it, if it is one.
  unfoldable pub judge : Decimal → List Sample → Sample → Option Anomaly
  judge threshold_sigma window sample =
      let values = map (λ v. v.1) window in
      let mean = div (total nought values) (whole (length values)) in
      let deviation = stdev values mean in
      let z = div (sub sample.1 mean) deviation in
      if eq deviation nought
      then none
      else if le threshold_sigma z
      then some (record {
        sample_date = sample.0;
        amount = sample.1;
        rolling_mean = mean;
        rolling_stdev = deviation;
        z_score = z;
        severity = classify z;
      })
      else none

  -- The turn of the loop at index i, and the turns from i on for as many indices as `rounds` says.
  abbrev pub turn : ℕ → Decimal → List Sample → ℕ → Option Anomaly
  turn window_size threshold_sigma series i = elim (get_elem? series i) [
    | none ↦ none
    | some sample ↦ judge threshold_sigma (slice (i - window_size) i series) sample
  ]

  unfoldable pub turns : ℕ → Decimal → List Sample → ℕ → ℕ → List Anomaly
  turns window_size threshold_sigma series i zero = []
  turns window_size threshold_sigma series i (suc rounds) =
      let rest = turns window_size threshold_sigma series (i + 1) rounds in
      elim (turn window_size threshold_sigma series i) [ none ↦ rest | some a ↦ a ∷ rest ]

  -- `find_anomalies`
  unfoldable pub find_anomalies : List Sample → ℕ → Decimal → Result (List Anomaly)
  find_anomalies series window_size threshold_sigma = do
    raise_if (leb window_size 1) Error.window_too_small
    ok (
        if leb (length series) window_size
        then []
        else turns window_size threshold_sigma series window_size (length series - window_size))
