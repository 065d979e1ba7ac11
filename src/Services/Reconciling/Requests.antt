-- ===== src/Services/Reconciling/Requests.antt =====
-- routers/reconciliations.py: the endpoints that change a reconciliation. Each fetches the row, calls the
-- service or the repository, and commits; an error rolls back. The audit log and the HTTP reply are left out.
use tulip_accounting.Prelude.{
  ℕ, ◌≡◌, refl, Bool, true, false, not, String, none, some, List, [], ◌∷◌, ◌==◌,
}
use tulip_accounting.Prelude.Results.{Error, Result, ok, err, raise_if, ◌>>◌, ◌>>=◌}
use tulip_accounting.Decimal.{Decimal}
use tulip_accounting.Transactions.{Uuid}
use tulip_accounting.Reconciliation.Score.{Similarity}
use tulip_accounting.Storage.Tables.{find, find-delete_self}
use tulip_accounting.Storage.Rows.{Db, MatchRow, Reconciliation, is_match}
use tulip_accounting.Storage.Ledger.{or_not_found}
use tulip_accounting.Storage.Reconciliations.{get_reconciliation, reject, rejected, revert}
use tulip_accounting.Services.Reconciling.{
  is_in_progress, complete_balanced, paper_match, manual_match, add_carry_forward,
  remove_carry_forward,
}
use tulip_accounting.Services.Reconciling.AutoMatch.{auto_match}

-- What a request asks of a reconciliation, with the identifiers and the time that serving it draws.
pub data Request : Type 0 where
  auto_matching : (ℕ → Uuid) → ℕ → Request
  completing : ℕ → Request
  paper_matching : Uuid → Uuid → Uuid → ℕ → Request
  manual_matching : Uuid → Uuid → Decimal → String → Uuid → Uuid → ℕ → Request
  carrying : List Uuid → Request
  uncarrying : Uuid → Request
  rejecting : Uuid → Request
  reverting : Bool → Request

-- `auto_match_endpoint`, `complete_endpoint`, `create_paper_match`, `create_manual_match`,
-- `add_carry_forward_endpoint`, `remove_carry_forward_endpoint`, `reject_match` and
-- `revert_reconciliation`, after the fetch.
unfoldable pub handle : Similarity → Uuid → Reconciliation → Request → Db → Result Db
unfolding auto_match complete_balanced paper_match manual_match add_carry_forward
    remove_carry_forward reject revert
handle s household_id recon (auto_matching fresh now) db = do
  r ← auto_match s household_id recon fresh now db
  ok r.1
handle s household_id recon (completing now) db = do
  r ← complete_balanced household_id recon now db
  ok r.1
handle s household_id recon (paper_matching tx_id user fresh now) db = do
  r ← paper_match household_id recon tx_id user fresh now db
  ok r.1
handle s household_id recon (manual_matching line_id tx_id amount currency user fresh now) db = do
  r ← manual_match household_id recon line_id tx_id amount currency user fresh now db
  ok r.1
handle s household_id recon (carrying tx_ids) db = add_carry_forward household_id recon tx_ids db
handle s household_id recon (uncarrying tx_id) db = remove_carry_forward household_id recon tx_id db
handle s household_id recon (rejecting match_id) db = do
  m ← or_not_found (find (is_match household_id match_id) db.matches)
  raise_if (not (m.reconciliation_id == recon.id)) Error.not_found
  reject household_id match_id db
handle s household_id recon (reverting cascade) db = revert household_id recon.id db

-- `revert_reconciliation` wants `cascade` before anything else.
abbrev pub is_refused : Request → Bool
is_refused (reverting cascade) = not cascade
is_refused _ = false

unfoldable pub serve : Similarity → Uuid → Uuid → Request → Db → Result Db
unfolding handle
serve s household_id recon_id request db = do
  raise_if (is_refused request) Error.cascade_required
  recon ← or_not_found (get_reconciliation household_id recon_id db)
  handle s household_id recon request db

-- What the session holds after a request.
abbrev pub settled : Result Db → Db → Db
settled (ok after) db = after
settled (err e) db = db

unfoldable pub serve_all : Similarity → Uuid → Uuid → List Request → Db → Db
unfolding serve
serve_all s household_id recon_id [] db = db
serve_all s household_id recon_id (r ∷ rs) db =
    serve_all s household_id recon_id rs (settled (serve s household_id recon_id r db) db)

-- Does the endpoint look at the status of the reconciliation?
abbrev pub heeds_status : Request → Bool
heeds_status (rejecting match_id) = false
heeds_status (reverting cascade) = false
heeds_status _ = true

-- Once a reconciliation is complete or abandoned, every request but rejecting a match and reverting is
-- refused.
pub serve_closed :
    (s : Similarity) (household_id recon_id : Uuid) (recon : Reconciliation) (request : Request)
    (db : Db)
    → get_reconciliation household_id recon_id db ≡ some recon
    → is_in_progress recon.status ≡ false
    → heeds_status request ≡ true
    → serve s household_id recon_id request db ≡ err Error.not_in_progress
unfolding serve auto_match complete_balanced paper_match manual_match add_carry_forward
    remove_carry_forward
serve_closed s hh id recon (auto_matching fresh now) db found closed heeds = rw (found, closed) refl
serve_closed s hh id recon (completing now) db found closed heeds = rw (found, closed) refl
serve_closed s hh id recon (paper_matching tx_id user fresh now) db found closed heeds =
    rw (found, closed) refl
serve_closed s hh id recon (manual_matching l t a c u f n) db found closed heeds =
    rw (found, closed) refl
serve_closed s hh id recon (carrying tx_ids) db found closed heeds = rw (found, closed) refl
serve_closed s hh id recon (uncarrying tx_id) db found closed heeds = rw (found, closed) refl
serve_closed s hh id recon (rejecting m) db found closed heeds = absurd (cc heeds)
serve_closed s hh id recon (reverting c) db found closed heeds = absurd (cc heeds)

-- Rejecting a stored match of a reconciliation is granted whatever the status of the
-- reconciliation, a completed one too, and leaves the reconciliations and the transactions as they
-- are.
pub reject_any_status :
    (s : Similarity) (household_id recon_id : Uuid) (recon : Reconciliation) (m : MatchRow)
    (db : Db)
    → get_reconciliation household_id recon_id db ≡ some recon
    → find (is_match household_id m.id) db.matches ≡ some m
    → (m.reconciliation_id == recon.id) ≡ true
    → (after : Db) × (serve s household_id recon_id (rejecting m.id) db ≡ ok after)
      × (after.reconciliations ≡ db.reconciliations)
      × (after.headers ≡ db.headers)
      × (find (is_match household_id m.id) after.matches ≡ none)
unfolding serve reject
reject_any_status s hh id recon m db found there own = (
  rejected hh m.id m db,
  rw (found, there, own) refl,
  refl,
  refl,
  find-delete_self (is_match hh m.id) db.matches,
)
