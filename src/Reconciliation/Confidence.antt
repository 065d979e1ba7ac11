-- ===== src/Reconciliation/Confidence.antt =====
-- match_confidence.py, `_classify_confidence` and `_describe_similarity` of matcher.py, and
-- candidate_match.py.
use tulip_accounting.Prelude.{
  ℕ, ◌≡◌, ◌≢◌, arith, Bool, true, not, ◌&&◌, String, ltb, leb, ◌==◌, if◌then◌else◌, ◌⊎◌,
}
use tulip_accounting.Prelude.Results.{Error, Result, ok, raise_if, ◌>>◌}
use tulip_accounting.Money.{Money}
use tulip_accounting.Transactions.{Uuid}
use tulip_accounting.Reconciliation.Score.{Similarity, IsOrdered}

-- `MatchConfidence`
pub data MatchConfidence : Type 0 where
  high medium low : MatchConfidence

-- `_RANK`
abbrev pub rank : MatchConfidence → ℕ
rank MatchConfidence.low = 0
rank MatchConfidence.medium = 1
rank MatchConfidence.high = 2

-- `__lt__`, `__le__`, `__gt__` and `__ge__`
abbrev pub confidence_lt : MatchConfidence → MatchConfidence → Bool
confidence_lt a b = ltb (rank a) (rank b)

abbrev pub confidence_le : MatchConfidence → MatchConfidence → Bool
confidence_le a b = leb (rank a) (rank b)

abbrev pub confidence_gt : MatchConfidence → MatchConfidence → Bool
confidence_gt a b = ltb (rank b) (rank a)

abbrev pub confidence_ge : MatchConfidence → MatchConfidence → Bool
confidence_ge a b = leb (rank b) (rank a)

module _ (s : Similarity) where
  open s use {Score, ratio, nought, one, lt, le}

  -- `_describe_similarity`: `min` and `max` keep their first argument unless the second is smaller
  -- or larger.
  unfoldable pub describe_similarity : String → String → Score
  describe_similarity a b =
      let score = ratio a b in
      let least = if lt score one then score else one in if lt nought least then least else nought

  -- `_classify_confidence`
  unfoldable pub classify_confidence : ℕ → Score → MatchConfidence
  classify_confidence date_delta_days score =
      if date_delta_days == 0
      then (if le s.high score then MatchConfidence.high else MatchConfidence.medium)
      else if le s.medium score
      then MatchConfidence.medium
      else MatchConfidence.low

  -- `CandidateMatch`
  pub record CandidateMatch : Type 0 where
    pub statement_line_id : Uuid
    pub ledger_transaction_id : Uuid
    pub match_amount : Money
    pub confidence : MatchConfidence
    pub fuzzy_score : Score

  -- `CandidateMatch.__post_init__`
  unfoldable pub check_candidate : CandidateMatch → Result CandidateMatch
  check_candidate c = do
    raise_if (not (le nought c.fuzzy_score && le c.fuzzy_score one)) Error.score_out_of_range
    ok c

module _ (s : Similarity) (laws : IsOrdered s) where
  open laws use {le_refl, le_trans, lt-eq-not-le, le_of_not_le, nought-le-one}

  -- A similarity is always from nought to one, whatever the ratio is.
  pub describe_similarity_bounds :
      (a b : String)
      → (s.le s.nought (describe_similarity s a b) ≡ true)
        × (s.le (describe_similarity s a b) s.one ≡ true)
  unfolding describe_similarity
  describe_similarity_bounds a b = ground (
    arith,
    lt-eq-not-le (s.ratio a b) s.one,
    lt-eq-not-le s.nought (s.ratio a b),
    lt-eq-not-le s.nought s.one,
    le_of_not_le s.one (s.ratio a b),
    le_of_not_le (s.ratio a b) s.nought,
    le_of_not_le s.one s.nought,
    le_refl s.one,
    le_refl s.nought,
    nought-le-one,
  )

  -- The bucket never falls as the score rises or as the dates come to agree; a match of the same
  -- date is never low, and one of another date never high.
  pub classify_confidence_mono :
      (d e : ℕ) (x y : s.Score)
      → (e ≡ d) ⊎ (e ≡ 0)
      → s.le x y ≡ true
      → (confidence_le (classify_confidence s d x) (classify_confidence s e y) ≡ true)
        × (classify_confidence s 0 x ≢ MatchConfidence.low)
        × (d ≢ 0 → classify_confidence s d x ≢ MatchConfidence.high)
  unfolding classify_confidence
  classify_confidence_mono d e x y near h =
      ground (arith, le_trans s.high x y, le_trans s.medium x y)
