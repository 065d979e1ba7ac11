-- ===== src/Services/Reconciling/Paper.antt =====
-- In a paper reconciliation a transaction is matched at most once, whatever is requested.
use tulip_accounting.Prelude.{
  ℕ, ◌≡◌, inl, inr, subst, arith, true, not, none, List, [], ◌∷◌, ◌==◌, Option-cases,
}
use tulip_accounting.Prelude.Results.{
  Error, Result, ok, err, Ensures, >>=-Ensures, raise_if-Ensures, >>=-Ensures_always,
}
use tulip_accounting.Transactions.{Uuid}
use tulip_accounting.Reconciliation.Score.{Similarity}
use tulip_accounting.Storage.Tables.{find, find_sound, find-All, All-delete}
use tulip_accounting.Storage.Rows.{
  Db, MatchRow, Reconciliation, is_reconciliation, is_match, is_header,
}
use tulip_accounting.Storage.Ledger.{or_not_found}
use tulip_accounting.Storage.Reconciliations.{get_reconciliation, reject, revert, is_match_of}
use tulip_accounting.Services.Reconciling.{
  is_in_progress, names_tx, or_raise, add_carry_forward, remove_carry_forward,
}
use tulip_accounting.Services.Reconciling.AutoMatch.{AutoMatchResult}
use tulip_accounting.Services.Reconciling.Requests.{
  Request, auto_matching, completing, paper_matching, manual_matching, carrying, uncarrying,
  rejecting, reverting, handle, is_refused, serve, serve_all, settled,
}
use tulip_accounting.Services.Reconciling.PaperCalls.{
  IsPaper, fewer, Leaves, auto_match-Kept, manual_match-Kept, paper_match-Kept, complete-Kept,
  write_carry_forward-Kept, carry_each-Kept,
}

module _ (household_id : Uuid) (recon : Reconciliation)
    (paper : recon.source_import_batch_id ≡ none) where
  handle-IsPaper :
      (s : Similarity) (request : Request) (db : Db)
      → IsPaper household_id recon.id db
      → Ensures (IsPaper household_id recon.id) (handle s household_id recon request db)
  unfolding handle add_carry_forward remove_carry_forward reject revert
  handle-IsPaper s (auto_matching fresh now) db kept =
      >>=-Ensures (Leaves household_id recon paper AutoMatchResult) (IsPaper household_id recon.id)
        _ _ (auto_match-Kept household_id recon paper s fresh now db kept) (λ r k. k)
  handle-IsPaper s (completing now) db kept =
      >>=-Ensures (Leaves household_id recon paper ℕ) (IsPaper household_id recon.id) _ _
        (complete-Kept household_id recon paper now db kept) (λ r k. k)
  handle-IsPaper s (paper_matching tx_id user fresh now) db kept =
      >>=-Ensures (Leaves household_id recon paper MatchRow) (IsPaper household_id recon.id) _ _
        (paper_match-Kept household_id recon paper tx_id user fresh now db kept) (λ r k. k)
  handle-IsPaper s (manual_matching l tx amount currency user fresh now) db kept =
      >>=-Ensures (Leaves household_id recon paper MatchRow) (IsPaper household_id recon.id) _ _
        (manual_match-Kept household_id recon paper l tx amount currency user fresh now db)
        (λ r k. k)
  handle-IsPaper s (carrying tx_ids) db kept =
      raise_if-Ensures (IsPaper household_id recon.id) (not (is_in_progress recon.status))
        Error.not_in_progress _ (λ _. carry_each-Kept household_id recon paper tx_ids db kept)
  handle-IsPaper s (uncarrying tx_id) db kept =
      raise_if-Ensures (IsPaper household_id recon.id) (not (is_in_progress recon.status))
        Error.not_in_progress _
        (λ _.
          >>=-Ensures_always (IsPaper household_id recon.id)
            (or_raise Error.tx_not_found (find (is_header household_id tx_id) db.headers)) _
            (λ tx. write_carry_forward-Kept household_id recon paper tx_id none db kept))
  handle-IsPaper s (rejecting match_id) db (once, papers) =
      >>=-Ensures_always (IsPaper household_id recon.id)
        (or_not_found (find (is_match household_id match_id) db.matches)) _
        (λ m.
          raise_if-Ensures (IsPaper household_id recon.id) (not (m.reconciliation_id == recon.id))
            Error.not_found _
            (λ _.
              >>=-Ensures_always (IsPaper household_id recon.id)
                (or_not_found (find (is_match household_id match_id) db.matches)) _
                (λ m. (
                  λ tx.
                      let fewer_left =
                        fewer (names_tx household_id recon.id tx) (is_match household_id match_id)
                          db.matches in
                      let before = once tx in omega arith,
                  papers,
                ))))
  handle-IsPaper s (reverting cascade) db (once, papers) =
      >>=-Ensures_always (IsPaper household_id recon.id)
        (or_not_found (get_reconciliation household_id recon.id db)) _
        (λ r. (
          λ tx.
              let fewer_left =
                fewer (names_tx household_id recon.id tx) (is_match_of household_id recon.id)
                  db.matches in
              let before = once tx in omega arith,
          All-delete (is_reconciliation household_id recon.id) db.reconciliations
              (λ r old miss. old) papers,
        ))

settled-Ensures {κ} :
    (P : Db → Type κ) (r : Result Db) (db : Db) → P db → Ensures P r → P (settled r db)
settled-Ensures P (ok after) db before p = p
settled-Ensures P (err e) db before p = before

serve-IsPaper :
    (s : Similarity) (household_id recon_id : Uuid) (request : Request) (db : Db)
    → IsPaper household_id recon_id db
    → Ensures (IsPaper household_id recon_id) (serve s household_id recon_id request db)
unfolding serve
serve-IsPaper s hh id request db kept =
    raise_if-Ensures (IsPaper hh id) (is_refused request) Error.cascade_required _ (λ _.
      elim (Option-cases (get_reconciliation hh id db)) [
        | inl missing ↦ rw missing tt
        | inr (recon, found) ↦
            let key = find_sound (is_reconciliation hh id) db.reconciliations recon found in
            let own : recon.id ≡ id = ground arith in
            let paper =
              find-All (λ r. is_reconciliation hh id r ≡ true → r.source_import_batch_id ≡ none)
                (is_reconciliation hh id) db.reconciliations recon kept.1 found key in
            rw found (
              subst (λ k. Ensures (IsPaper hh k) (handle s hh recon request db)) own
                (handle-IsPaper hh recon paper s request db (rw own kept)))
      ])

-- Where a reconciliation has no source batch and matches each transaction at most once, it does so after
-- any sequence of requests, whichever of them are refused.
pub serve_all-IsPaper :
    (s : Similarity) (household_id recon_id : Uuid) (requests : List Request) (db : Db)
    → IsPaper household_id recon_id db
    → IsPaper household_id recon_id (serve_all s household_id recon_id requests db)
unfolding serve_all
serve_all-IsPaper s hh id [] db kept = kept
serve_all-IsPaper s hh id (r ∷ rs) db kept =
    serve_all-IsPaper s hh id rs (settled (serve s hh id r db) db) (
      settled-Ensures (IsPaper hh id) (serve s hh id r db) db kept
        (serve-IsPaper s hh id r db kept))
