-- ===== src/Services/Reconciling/PaperCalls.antt =====
-- What each call of the service keeps of a paper reconciliation.
use tulip_accounting.Prelude.{
  ℕ, ◌≤◌, ◌≡◌, inl, inr, arith, Bool, true, false, not, String, Option, none, some, List, [], ◌∷◌,
  ◌++◌, ◌==◌, keep, length, head?, All, Bool-cases,
}
use tulip_accounting.Prelude.Lists.{length-append}
use tulip_accounting.Prelude.Results.{
  Error, Ensures, >>=-Ensures, raise_if-Ensures, >>=-Ensures_always,
}
use tulip_accounting.Decimal.{Decimal, is_zero}
use tulip_accounting.Transactions.{Uuid, is_some}
use tulip_accounting.Reconciliation.Score.{Similarity}
use tulip_accounting.Storage.Tables.{find, delete, exists, keep-append, keep-none, All-update}
use tulip_accounting.Storage.Rows.{
  Db, MatchRow, Reconciliation, ReconciliationStatus, is_reconciliation, is_line, is_header,
}
use tulip_accounting.Storage.Ledger.{or_not_found}
use tulip_accounting.Storage.Reconciliations.{
  get_reconciliation, list_for_reconciliation, write_carry_forward, create_match, complete,
}
use tulip_accounting.Services.Reconciling.{
  is_in_progress, names_tx, in_period, bank_postings, or_raise, residual, paper_match, manual_match,
  complete_balanced, carry_each,
}
use tulip_accounting.Services.Reconciling.AutoMatch.{AutoMatchResult, auto_match}

-- How often a reconciliation matches a transaction.
abbrev pub times_matched : Uuid → Uuid → Uuid → List MatchRow → ℕ
times_matched household_id recon_id tx_id ms =
    length (keep (names_tx household_id recon_id tx_id) ms)

-- Each transaction is matched at most once, and the reconciliation has no source batch.
abbrev pub IsPaper : Uuid → Uuid → Db → Type 0
IsPaper household_id recon_id db =
    ((tx_id : Uuid) → times_matched household_id recon_id tx_id db.matches ≤ 1)
    × All (λ r. is_reconciliation household_id recon_id r ≡ true → r.source_import_batch_id ≡ none)
        db.reconciliations

-- Deleting rows leaves no more of them.
pub fewer {ℓ} :
    {A : Type ℓ} (p q : A → Bool) (xs : List A) → length (keep p (delete q xs)) ≤ length (keep p xs)
fewer p q [] = omega arith
fewer p q (x ∷ xs) = ground (arith, fewer p q xs)

-- A match of a transaction that was not matched.
once_more :
    (household_id recon_id tx_id : Uuid) (m : MatchRow) (ms : List MatchRow)
    → exists (names_tx household_id recon_id m.ledger_transaction_id) ms ≡ false
    → ((tx : Uuid) → times_matched household_id recon_id tx ms ≤ 1)
    → times_matched household_id recon_id tx_id (ms ++ (m ∷ [])) ≤ 1
once_more hh id tx m ms free once =
    rw
      (
        keep-append (names_tx hh id tx) ms (m ∷ []),
        length-append (keep (names_tx hh id tx) ms) (keep (names_tx hh id tx) (m ∷ [])),
      )
      (elim (Bool-cases (m.ledger_transaction_id == tx)) [
        | inl same ↦
            let own : m.ledger_transaction_id ≡ tx = ground arith in
            rw (keep-none (names_tx hh id tx) ms (rw own at free)) (ground arith)
        | inr other ↦ let before = once tx in ground arith
      ])

module _ (household_id : Uuid) (recon : Reconciliation)
    (paper : recon.source_import_batch_id ≡ none) where
  -- What a call returns beside its result is such a session.
  abbrev pub Leaves : (A : Type 0) → A × Db → Type 0
  Leaves A r = IsPaper household_id recon.id r.1

  pub auto_match-Kept :
      (s : Similarity) (fresh : ℕ → Uuid) (now : ℕ) (db : Db)
      → IsPaper household_id recon.id db
      → Ensures (Leaves AutoMatchResult) (auto_match s household_id recon fresh now db)
  unfolding auto_match
  auto_match-Kept s fresh now db kept = rw paper (
      raise_if-Ensures (Leaves AutoMatchResult) (not (is_in_progress recon.status))
        Error.not_in_progress _
        (λ open_.
          raise_if-Ensures (Leaves AutoMatchResult)
            (is_some (head? (list_for_reconciliation household_id recon.id db))) Error.matches_exist
            _ (λ first. kept)))

  pub manual_match-Kept :
      (line_id tx_id : Uuid) (amount : Decimal) (currency : String) (user fresh : Uuid) (now : ℕ)
      (db : Db)
      → Ensures
          (Leaves MatchRow)
          (manual_match household_id recon line_id tx_id amount currency user fresh now db)
  unfolding manual_match
  manual_match-Kept line_id tx_id amount currency user fresh now db = rw paper (
      raise_if-Ensures (Leaves MatchRow) (not (is_in_progress recon.status)) Error.not_in_progress _
        (λ open_.
          >>=-Ensures_always (Leaves MatchRow)
            (or_raise Error.line_not_found (find (is_line household_id line_id) db.lines)) _
            (λ l. tt)))

  pub paper_match-Kept :
      (tx_id user fresh : Uuid) (now : ℕ) (db : Db)
      → IsPaper household_id recon.id db
      → Ensures (Leaves MatchRow) (paper_match household_id recon tx_id user fresh now db)
  unfolding paper_match create_match
  paper_match-Kept tx_id user fresh now db (once, papers) =
      raise_if-Ensures (Leaves MatchRow) (not (is_in_progress recon.status)) Error.not_in_progress _
        (λ open_.
          raise_if-Ensures (Leaves MatchRow) (is_some recon.source_import_batch_id) Error.not_paper
            _
            (λ _.
              >>=-Ensures_always (Leaves MatchRow)
                (or_raise Error.tx_not_found (find (is_header household_id tx_id) db.headers)) _
                (λ tx.
                  raise_if-Ensures (Leaves MatchRow) (not (in_period recon tx))
                    Error.tx_not_in_period _
                    (λ _.
                      >>=-Ensures_always (Leaves MatchRow)
                        (or_raise Error.account_mismatch
                          (head? (bank_postings household_id recon tx_id db)))
                        _
                        (λ p.
                          raise_if-Ensures (Leaves MatchRow)
                            (exists (names_tx household_id recon.id tx_id) db.matches)
                            Error.tx_matched _
                            (λ free. (
                              λ tx. once_more household_id recon.id tx _ db.matches free once,
                              papers,
                            )))))))

  pub complete-Kept :
      (now : ℕ) (db : Db)
      → IsPaper household_id recon.id db
      → Ensures (Leaves ℕ) (complete_balanced household_id recon now db)
  unfolding complete_balanced complete
  complete-Kept now db (once, papers) =
      raise_if-Ensures (Leaves ℕ) (not (is_in_progress recon.status)) Error.not_in_progress _
        (λ open_.
          raise_if-Ensures (Leaves ℕ) (not (is_zero (residual household_id recon db)))
            Error.unbalanced_reconciliation _
            (λ even.
              >>=-Ensures (IsPaper household_id recon.id) (Leaves ℕ)
                (complete household_id recon.id now db) _
                (>>=-Ensures_always (IsPaper household_id recon.id)
                  (or_not_found (get_reconciliation household_id recon.id db)) _
                  (λ r. (
                    once,
                    All-update (is_reconciliation household_id recon.id)
                        (λ r. record r {
                          status = ReconciliationStatus.complete;
                          completed_at = some now;
                        })
                        db.reconciliations (λ r old hit own. old hit) (λ r old miss. old) papers,
                  )))
                (λ after kept. kept)))

  pub write_carry_forward-Kept :
      (tx_id : Uuid) (link : Option Uuid) (db : Db)
      → IsPaper household_id recon.id db
      → Ensures (IsPaper household_id recon.id) (write_carry_forward household_id tx_id link db)
  unfolding write_carry_forward
  write_carry_forward-Kept tx_id link db kept =
      >>=-Ensures_always (IsPaper household_id recon.id)
        (or_not_found (find (is_header household_id tx_id) db.headers)) _ (λ h. kept)

  pub carry_each-Kept :
      (tx_ids : List Uuid) (db : Db)
      → IsPaper household_id recon.id db
      → Ensures (IsPaper household_id recon.id) (carry_each household_id recon tx_ids db)
  unfolding carry_each
  carry_each-Kept [] db kept = kept
  carry_each-Kept (tx_id ∷ tx_ids) db kept =
      >>=-Ensures_always (IsPaper household_id recon.id)
        (or_raise Error.tx_not_found (find (is_header household_id tx_id) db.headers)) _
        (λ tx.
          raise_if-Ensures (IsPaper household_id recon.id) (not (in_period recon tx))
            Error.tx_not_in_period _
            (λ _.
              >>=-Ensures (IsPaper household_id recon.id) (IsPaper household_id recon.id)
                (write_carry_forward household_id tx_id (some recon.id) db) _
                (write_carry_forward-Kept tx_id (some recon.id) db kept) (carry_each-Kept tx_ids)))
