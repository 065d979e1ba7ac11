-- ===== src/Reconciliation/Score.antt =====
-- The floats of the matcher. `fuzz.token_set_ratio(a, b, processor=utils.default_process) / 100.0` is
-- code of the package rapidfuzz: it enters as `ratio`, over any type of scores with a comparison.
use tulip_accounting.Prelude.{ℕ, ◌≡◌, Bool, true, false, not, String, ltb, leb, arith}

pub record Similarity : Type 1 where
  pub Score : Type 0
  pub ratio : String → String → Score
  -- `0.0`, `1.0`, and the thresholds `0.6` and `0.9`
  pub nought : Score
  pub one : Score
  pub medium : Score
  pub high : Score
  -- `a < b` and `a <= b`
  pub lt : Score → Score → Bool
  pub le : Score → Score → Bool

-- What IEEE comparison gives on the scores of rapidfuzz, which are no NaN.
pub record IsOrdered (s : Similarity) : Type 0 where
  pub le_refl : (a : s.Score) → s.le a a ≡ true
  pub le_trans : (a b c : s.Score) → s.le a b ≡ true → s.le b c ≡ true → s.le a c ≡ true
  pub lt-eq-not-le : (a b : s.Score) → s.lt a b ≡ not (s.le b a)
  pub le_of_not_le : (a b : s.Score) → s.le a b ≡ false → s.le b a ≡ true
  pub nought-le-one : s.le s.nought s.one ≡ true

-- The laws can be met: whole hundredths, with a ratio that knows equal texts.
abbrev pub hundredths : (String → String → ℕ) → Similarity
hundredths ratio = record {
  Score = ℕ;
  ratio = ratio;
  nought = 0;
  one = 100;
  medium = 60;
  high = 90;
  lt = ltb;
  le = leb;
}

pub hundredths-IsOrdered : (ratio : String → String → ℕ) → IsOrdered (hundredths ratio)
hundredths-IsOrdered ratio = ground arith
