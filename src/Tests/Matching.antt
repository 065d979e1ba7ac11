-- ===== src/Tests/Matching.antt =====
-- Reconciliation: the matcher, statement lines and the registry.
use tulip_accounting.Prelude.{
  ℕ, ◌≡◌, refl, String, str_eq, none, some, List, [], ◌∷◌, if◌then◌else◌,
}
use tulip_accounting.Prelude.Lists.{At}
use tulip_accounting.Prelude.Int.{negsuc}
use tulip_accounting.Prelude.Results.{Error, ok, err}
use tulip_accounting.Decimal.{eq, shift}
use tulip_accounting.Account.{is_blank}
use tulip_accounting.Money.{money_eq}
use tulip_accounting.Transactions.{Uuid, Posting, Transaction}
use tulip_accounting.Reconciliation.Score.{Similarity, hundredths, hundredths-IsOrdered}
use tulip_accounting.Reconciliation.Confidence.{
  MatchConfidence, CandidateMatch, classify_confidence, describe_similarity,
}
use tulip_accounting.Reconciliation.StatementLine.{
  ParsedStatementLine, StatementLine, check_parsed_line,
}
use tulip_accounting.Reconciliation.Matcher.{pair_of, candidate, find_candidates, sort_by, IsSorted}
use tulip_accounting.Reconciliation.Matcher.Pairs.{IsCandidatePair, find_candidates_lem}
use tulip_accounting.Reconciliation.Categorizer.Answers.{HouseholdContext}
use tulip_accounting.Tests.Data.{usd, groceries}

-- Equal texts score a hundred, all others fifty.
abbrev equal_or_half : String → String → ℕ
equal_or_half a b = if str_eq a b then 100 else 50

abbrev scores : Similarity
scores = hundredths equal_or_half

abbrev line : Uuid → ℕ → String → StatementLine
line id date description = record {
  id = id;
  import_batch_id = 70;
  line_number = 1;
  posted_date = date;
  amount = usd (negsuc 1249);
  description = description;
  raw = [];
  counterparty = none;
  reference = none;
  fitid = none;
}

abbrev lines : List StatementLine
lines = line 82 738_012 "SHOP" ∷ line 81 738_010 "Corner shop" ∷ line 83 738_014 "Corner shop" ∷ []

-- The line of two days later matches with low confidence, that of four days later not at all.
matched :
    find_candidates scores lines (groceries ∷ []) 10 []
    ≡ ok (
        record {
          statement_line_id = 81;
          ledger_transaction_id = 100;
          match_amount = usd (negsuc 1249);
          confidence = MatchConfidence.high;
          fuzzy_score = 100;
        }
        ∷ record {
          statement_line_id = 82;
          ledger_transaction_id = 100;
          match_amount = usd (negsuc 1249);
          confidence = MatchConfidence.low;
          fuzzy_score = 50;
        }
        ∷ [])
unfolding find_candidates sort_by classify_confidence describe_similarity money_eq eq shift
matched = refl

find_candidates_lem_example :
    (out : List (CandidateMatch scores)) × (find_candidates scores lines (groceries ∷ []) 10 []
      ≡ ok out)
    × IsSorted (pair_of scores) out
    × ((c : CandidateMatch scores)
        → At c out
        → (line : StatementLine) × (tx : Transaction) × (p : Posting) × At line lines
          × At tx (groceries ∷ [])
          × IsCandidatePair 10 [] line tx p
          × (c ≡ candidate scores line tx))
    × ((line : StatementLine) (tx : Transaction) (p : Posting)
        → At line lines
        → At tx (groceries ∷ [])
        → IsCandidatePair 10 [] line tx p
        → At (candidate scores line tx) out)
find_candidates_lem_example =
    find_candidates_lem scores (hundredths-IsOrdered equal_or_half) lines (groceries ∷ []) 10 []

abbrev parsed : ParsedStatementLine
parsed = record {
  line_number = 3;
  posted_date = 738_010;
  amount = usd (negsuc 1249);
  description = " SHOP";
  raw = ("memo", "x") ∷ [];
  counterparty = none;
  reference = some "r";
  fitid = none;
  splits = [];
  tags = [];
}

blank_line : check_parsed_line (record parsed { description = " " }) ≡ err Error.empty_description
unfolding check_parsed_line is_blank
blank_line = refl

abbrev household : HouseholdContext String
household = record {
  household_id = 1;
  account_whitelist = 10 ∷ 20 ∷ [];
  existing_rules = [];
  acting_user_id = none;
}
