-- ===== src/Tests/Reconciling.antt =====
-- A reconciliation of the bank account over one month, from an imported batch and on paper.
use tulip_accounting.Prelude.{
  ◌≡◌, ◌⊎◌, ◌==◌, keep, refl, arith, true, false, ◌&&◌, Option, none, some, List, [], ◌∷◌, ◌++◌,
  All, length,
}
use tulip_accounting.Prelude.Int.{pos, negsuc, ◌+ℤ◌, times_ten}
use tulip_accounting.Prelude.Results.{Error, ok, err, is_ok}
use tulip_accounting.Prelude.Lists.{At}
use tulip_accounting.Decimal.{add, shift, eq}
use tulip_accounting.Transactions.{Uuid, TransactionStatus}
use tulip_accounting.Reconciliation.Score.{Similarity, hundredths}
use tulip_accounting.Storage.Tables.{find}
use tulip_accounting.Storage.Rows.{
  Db, Header, LineRow, MatchRow, Reconciliation, ReconciliationStatus, is_match,
}
use tulip_accounting.Storage.Ledger.{posting_rows, pending_header}
use tulip_accounting.Storage.Reconciliations.{
  get_reconciliation, create_match, reject, revert, reverted,
}
use tulip_accounting.Storage.Reconciliations.Lines.{ParsedRow, bulk_insert}
use tulip_accounting.Storage.Reconciliations.Pointers.{AreLinked}
use tulip_accounting.Storage.Reconciliations.Reachable.{
  here, next, imports, matches_line, Reach-AreLinked,
}
use tulip_accounting.Storage.Reconciliations.Completed.{
  IsForgotten, IsFreed, revert-IsForgotten, reject_beside,
}
use tulip_accounting.Services.Reconciling.{is_in_progress, complete_balanced}
use tulip_accounting.Services.Reconciling.Complete.{
  IsNamedBy, balances, complete_balanced_lem, complete_balanced_ok,
}
use tulip_accounting.Services.Reconciling.Requests.{
  Request, paper_matching, rejecting, completing, serve, serve_all, serve_closed, reject_any_status,
}
use tulip_accounting.Services.Reconciling.Paper.{serve_all-IsPaper}
use tulip_accounting.Services.Reconciling.PaperCalls.{IsPaper}
use tulip_accounting.Tests.Data.{decimal, groceries, shop_postings}

abbrev scores : Similarity
scores = hundredths (λ a b. 100)

abbrev bank_recon : Option Uuid → ReconciliationStatus → Reconciliation
bank_recon batch status = record {
  household_id = 1;
  id = 70;
  account_id = 10;
  statement_period_start = 738_000;
  statement_period_end = 738_030;
  statement_starting_balance = decimal (pos 10_000) 2;
  statement_ending_balance = decimal (pos 8750) 2;
  currency = "USD";
  status = status;
  source_import_batch_id = batch;
  created_by_user_id = some 7;
  created_at = 900;
  completed_at = none;
}

abbrev shop_header : Header
shop_header =
    record (pending_header (λ key hh id text. text) (record { household_id = 1; master_key = none })
      groceries TransactionStatus.posted none none 900) { status = TransactionStatus.posted }

abbrev shop_line : LineRow
shop_line = record {
  household_id = 1;
  id = 90;
  import_batch_id = 80;
  line_number = 1;
  posted_date = 738_011;
  amount = decimal (negsuc 1249) 2;
  currency = "USD";
  description = "SHOP";
  counterparty = none;
  reference = none;
  fitid = none;
  is_excluded = false;
  reconciliation_match_id = some 96;
  promoted_transaction_id = none;
}

abbrev shop_match : Uuid → MatchRow
shop_match id = record {
  household_id = 1;
  id = id;
  reconciliation_id = 70;
  statement_line_id = some 90;
  ledger_transaction_id = 100;
  match_amount = decimal (negsuc 1249) 2;
  currency = "USD";
  confidence = none;
  matcher_version = none;
  created_by_user_id = some 7;
  created_at = 920;
}

abbrev session : Reconciliation → List MatchRow → Db
session recon matches = record {
  headers = shop_header ∷ [];
  postings = posting_rows 1 100 shop_postings;
  lines = shop_line ∷ [];
  matches = matches;
  reconciliations = recon ∷ [];
}

abbrev open_recon : Reconciliation
open_recon = bank_recon (some 80) ReconciliationStatus.in_progress

-- In progress, with the one match that explains the difference of the balances.
abbrev matched_db : Db
matched_db = session open_recon (shop_match 96 ∷ [])

matched_balances : balances 1 open_recon matched_db ≡ true
unfolding add ◌+ℤ◌ shift times_ten eq
matched_balances = refl

complete_balanced_lem_example :
    is_ok (complete_balanced 1 open_recon 950 matched_db)
    ≡ (is_in_progress open_recon.status && balances 1 open_recon matched_db)
complete_balanced_lem_example = complete_balanced_lem 1 open_recon open_recon 950 matched_db refl

complete_balanced_ok_example :
    (after : Db) × (complete_balanced 1 open_recon 950 matched_db
      ≡ ok (
        length (keep (λ m. m.household_id == 1 && m.reconciliation_id == 70) matched_db.matches),
        after,
      ))
    × (get_reconciliation 1 70 after
        ≡ some
            (record open_recon { status = ReconciliationStatus.complete; completed_at = some 950 }))
    × All
        (λ h.
          (m : MatchRow)
          → At m matched_db.matches
          → m.household_id ≡ 1
          → m.reconciliation_id ≡ 70
          → h.household_id ≡ 1
          → m.ledger_transaction_id ≡ h.id
          → (h.reconciliation_id ≡ some 70) × (h.reconciled_at ≡ some 950))
        after.headers
    × All
        (λ h.
          At h matched_db.headers ⊎ ((h.household_id ≡ 1) × IsNamedBy 1 70 matched_db.matches h.id))
        after.headers
complete_balanced_ok_example =
    complete_balanced_ok 1 open_recon 950 matched_db refl refl matched_balances

abbrev closed_recon : Reconciliation
closed_recon = bank_recon (some 80) ReconciliationStatus.complete

abbrev closed_db : Db
closed_db = session closed_recon (shop_match 96 ∷ [])

serve_closed_example : serve scores 1 70 (completing 960) closed_db ≡ err Error.not_in_progress
serve_closed_example =
    serve_closed scores 1 70 closed_recon (completing 960) closed_db refl refl refl

reject_any_status_example :
    (after : Db) × (serve scores 1 70 (rejecting 96) closed_db ≡ ok after)
    × (after.reconciliations ≡ closed_db.reconciliations)
    × (after.headers ≡ closed_db.headers)
    × (find (is_match 1 96) after.matches ≡ none)
reject_any_status_example =
    reject_any_status scores 1 70 closed_recon (shop_match 96) closed_db refl refl refl

revert-IsForgotten_example :
    (revert 1 70 closed_db ≡ ok (reverted 1 70 closed_db))
    × IsForgotten 1 70 (reverted 1 70 closed_db)
revert-IsForgotten_example = revert-IsForgotten 1 70 closed_db closed_recon refl

-- Two candidates of one line, and the first is rejected.
abbrev doubled_db : Db
doubled_db = session open_recon (shop_match 95 ∷ shop_match 96 ∷ [])

reject_beside_example :
    (after : Db) × (reject 1 95 doubled_db ≡ ok after)
    × (find (is_match 1 96) after.matches ≡ some (shop_match 96))
    × All (IsFreed 1 90) after.lines
reject_beside_example =
    reject_beside 1 90 (shop_match 95) (shop_match 96) doubled_db refl refl refl refl refl

abbrev empty_db : Db
empty_db = record { headers = []; postings = []; lines = []; matches = []; reconciliations = [] }

abbrev shop_row : ParsedRow
shop_row = record {
  line_number = 1;
  posted_date = 738_011;
  amount = decimal (negsuc 1249) 2;
  currency = "USD";
  description = "SHOP";
  counterparty = none;
  reference = none;
  fitid = none;
}

abbrev imported_db : Db
imported_db = record empty_db { lines = [] ++ bulk_insert 1 80 (λ k. 90) 0 (shop_row ∷ []) }

Reach-AreLinked_example : AreLinked (create_match (shop_match 96) imported_db)
Reach-AreLinked_example =
    Reach-AreLinked {start = empty_db} tt (
      next (next here (imports 1 80 (λ k. 90) (shop_row ∷ []))) (matches_line (shop_match 96) refl))

-- On paper: the transaction is matched, matched again in vain, and rejected.
abbrev paper_recon : Reconciliation
paper_recon = bank_recon none ReconciliationStatus.in_progress

abbrev paper_requests : List Request
paper_requests = paper_matching 100 7 97 930 ∷ paper_matching 100 7 98 931 ∷ rejecting 97 ∷ []

serve_all-IsPaper_example :
    IsPaper 1 70 (serve_all scores 1 70 paper_requests (session paper_recon []))
serve_all-IsPaper_example =
    serve_all-IsPaper scores 1 70 paper_requests (session paper_recon [])
      ((λ tx. omega arith), ((λ own. refl), tt))
