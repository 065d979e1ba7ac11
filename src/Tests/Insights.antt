-- ===== src/Tests/Insights.antt =====
-- A run of the anomaly detection on four days of spending, and the witness.
use tulip_accounting.Prelude.{
  ℕ, zero, suc, ◌+◌, ◌*◌, ◌/◌, ◌≡◌, ◌↔◌, refl, List, [], ◌∷◌, leb, if◌then◌else◌, arith,
}
use tulip_accounting.Prelude.Lists.{At}
use tulip_accounting.Prelude.Int.{pos_part, ◌+ℤ◌, ◌*ℤ◌, -ℤ◌, times_ten}
use tulip_accounting.Prelude.Results.{ok}
use tulip_accounting.Decimal.{Decimal, add, sub, neg, mul, le, eq, shift}
use tulip_accounting.Insights.{
  Sample, Anomaly, AnomalySeverity, whole, classify, stdev, judge, turns, find_anomalies,
}
use tulip_accounting.Insights.Windows.{IsAnomalyIn, find_anomalies_iff}

-- Quotients and roots of whole numbers, rounded down.
abbrev quotient : Decimal → Decimal → Decimal
quotient a b = whole (pos_part a.coeff / pos_part b.coeff)

abbrev root : ℕ → ℕ
root zero = 0
root (suc k) = let r = root k in if leb ((r + 1) * (r + 1)) (suc k) then r + 1 else r

abbrev square_root : Decimal → Decimal
square_root d = whole (root (pos_part d.coeff))

abbrev spending : List Sample
spending = (1, whole 8) ∷ (2, whole 12) ∷ (3, whole 16) ∷ (4, whole 15) ∷ []

-- The third day is three deviations above the mean of the two days before it.
spending_anomalies :
    find_anomalies quotient square_root spending 2 (whole 2)
    ≡ ok (
        record {
          sample_date = 3;
          amount = whole 16;
          rolling_mean = whole 10;
          rolling_stdev = whole 2;
          z_score = whole 3;
          severity = AnomalySeverity.warning;
        }
        ∷ [])
unfolding find_anomalies turns judge stdev classify add sub neg mul le eq shift times_ten ◌+ℤ◌ ◌*ℤ◌
    -ℤ◌
spending_anomalies = refl

find_anomalies_iff_example :
    (anomalies : List Anomaly) × (find_anomalies quotient square_root spending 2 (whole 2)
      ≡ ok anomalies)
    × ((a : Anomaly) → At a anomalies ↔ IsAnomalyIn quotient square_root 2 (whole 2) spending a)
find_anomalies_iff_example =
    find_anomalies_iff quotient square_root spending 2 (whole 2) (omega arith)
