-- ===== src/Tests/Ai.antt =====
-- Three calls in one minute where two in an hour may be made.
use tulip_accounting.Prelude.{ℕ, ◌+◌, false, none, some, List, [], ◌∷◌}
use tulip_accounting.Decimal.{nought}
use tulip_accounting.Ai.Cost.{GatePolicy}
use tulip_accounting.Ai.RateLimit.{Attempt}

abbrev two_an_hour : GatePolicy
two_an_hour = record {
  rate_limit_per_hour = 2;
  monthly_cost_cap_usd = none;
  degrades = false;
  fallback_provider = none;
  fallback_model = none;
  primary_provider = some "anthropic";
  primary_model = some "claude";
}

abbrev attempt_at : ℕ → Attempt
attempt_at t = record { now = t; written = t + 2; failed = false; cost = nought }

abbrev attempts : List Attempt
attempts = attempt_at 5000 ∷ attempt_at 5010 ∷ attempt_at 5020 ∷ []
