-- ===== src/Services/Reconciling/AutoMatch.antt =====
-- `auto_match` of services/reconciliation_match.py.
use tulip_accounting.Prelude.{
  ℕ, ◌+◌, Bool, true, false, not, none, some, List, [], ◌∷◌, keep, head?, length, if◌then◌else◌,
}
use tulip_accounting.Prelude.Results.{Error, Result, ok, raise_if, ◌>>◌, ◌>>=◌}
use tulip_accounting.Money.{money}
use tulip_accounting.Transactions.{
  Uuid, Posting, Transaction, TransactionStatus, check_posting, check_transaction, is_some,
}
use tulip_accounting.Reconciliation.Score.{Similarity}
use tulip_accounting.Reconciliation.Confidence.{MatchConfidence, CandidateMatch}
use tulip_accounting.Reconciliation.StatementLine.{StatementLine, check_line}
use tulip_accounting.Reconciliation.Matcher.{find_candidates}
use tulip_accounting.Storage.Rows.{Db, Header, PostingRow, LineRow, MatchRow, Reconciliation}
use tulip_accounting.Storage.Queries.{list_headers, list_postings}
use tulip_accounting.Storage.Reconciliations.{list_for_reconciliation, create_match}
use tulip_accounting.Storage.Reconciliations.Lines.{list_for_batch}
use tulip_accounting.Services.Reconciling.{is_in_progress}

-- `_line_to_domain`
unfoldable pub line_to_domain : LineRow → Result StatementLine
unfolding money check_line
line_to_domain l = do
  amount ← money l.amount l.currency
  check_line (record {
    id = l.id;
    import_batch_id = l.import_batch_id;
    line_number = l.line_number;
    posted_date = l.posted_date;
    amount = amount;
    description = l.description;
    raw = [];
    counterparty = l.counterparty;
    reference = l.reference;
    fitid = l.fitid;
  })

abbrev posting_to_domain : PostingRow → Result Posting
posting_to_domain p = do
  amount ← money p.amount p.currency
  check_posting (record {
    id = p.id;
    account_id = p.account_id;
    amount = amount;
    pool_id = p.pool_id;
    memo = none;
    fx_rate = none;
    fx_amount = none;
  })

-- A list comprehension whose element may raise.
abbrev pub each {ℓ κ} : {A : Type ℓ} {B : Type κ} → (A → Result B) → List A → Result (List B)
each f [] = ok []
each f (x ∷ xs) = do y ← f x; ys ← each f xs; ok (y ∷ ys)

-- `_tx_to_domain`
unfoldable pub tx_to_domain : Header → List PostingRow → Result Transaction
unfolding check_transaction
tx_to_domain tx postings = do
  domain_postings ← each posting_to_domain postings
  check_transaction (record {
    id = tx.id;
    household_id = tx.household_id;
    date = tx.date;
    description = tx.description;
    postings = domain_postings;
    status = tx.status;
    reference = tx.reference;
    created_by_user_id = none;
    voided_by_transaction_id = none;
  })

-- `AutoMatchResult`
pub record AutoMatchResult : Type 0 where
  pub matches_created : ℕ
  pub high_count : ℕ
  pub medium_count : ℕ
  pub low_count : ℕ

abbrev same_confidence : MatchConfidence → MatchConfidence → Bool
same_confidence MatchConfidence.high MatchConfidence.high = true
same_confidence MatchConfidence.medium MatchConfidence.medium = true
same_confidence MatchConfidence.low MatchConfidence.low = true
same_confidence _ _ = false

-- `frozenset(h.id for h in headers if h.reconciliation_id is not None)`
abbrev reconciled_ids : List Header → List Uuid
reconciled_ids [] = []
reconciled_ids (h ∷ hs) =
    if is_some h.reconciliation_id then h.id ∷ reconciled_ids hs else reconciled_ids hs

module _ (s : Similarity) where
  abbrev count_confidence : MatchConfidence → List (CandidateMatch s) → ℕ
  count_confidence c cs = length (keep (λ m. same_confidence m.confidence c) cs)

  -- The loop over the candidates; the k-th match has the k-th fresh identifier.
  unfoldable pub persist : Uuid → Uuid → (ℕ → Uuid) → ℕ → ℕ → List (CandidateMatch s) → Db → Db
  unfolding create_match
  persist household_id recon_id fresh k now [] db = db
  persist household_id recon_id fresh k now (c ∷ cs) db =
      let row : MatchRow = record {
        household_id = household_id;
        id = fresh k;
        reconciliation_id = recon_id;
        statement_line_id = some c.statement_line_id;
        ledger_transaction_id = c.ledger_transaction_id;
        match_amount = c.match_amount.amount;
        currency = c.match_amount.currency;
        confidence = some c.confidence;
        matcher_version = some "v1";
        created_by_user_id = none;
        created_at = now;
      } in
      persist household_id recon_id fresh (k + 1) now cs (create_match row db)

  -- What `find_candidates` is given, and what it finds.
  unfoldable pub candidates_for :
      Uuid → Reconciliation → Uuid → Db → Result (List (CandidateMatch s))
  unfolding line_to_domain tx_to_domain list_headers find_candidates
  candidates_for household_id recon batch_id db = do
    domain_lines ←
        each line_to_domain
          (keep (λ l. not l.is_excluded) (list_for_batch household_id batch_id db))
    let headers =
        list_headers household_id (some recon.account_id) (some recon.statement_period_start)
          (some recon.statement_period_end) (some TransactionStatus.posted) db
    domain_txs ← each (λ h. tx_to_domain h (list_postings household_id h.id db)) headers
    find_candidates s domain_lines domain_txs recon.account_id (reconciled_ids headers)

  -- `auto_match`
  unfoldable pub auto_match :
      Uuid → Reconciliation → (ℕ → Uuid) → ℕ → Db → Result (AutoMatchResult × Db)
  unfolding candidates_for persist
  auto_match household_id recon fresh now db = do
    raise_if (not (is_in_progress recon.status)) Error.not_in_progress
    raise_if (is_some (head? (list_for_reconciliation household_id recon.id db)))
        Error.matches_exist
    elim recon.source_import_batch_id [
      | none ↦
          ok (record { matches_created = 0; high_count = 0; medium_count = 0; low_count = 0 }, db)
      | some batch_id ↦ do
        candidates ← candidates_for household_id recon batch_id db
        ok (
          record {
            matches_created = length candidates;
            high_count = count_confidence MatchConfidence.high candidates;
            medium_count = count_confidence MatchConfidence.medium candidates;
            low_count = count_confidence MatchConfidence.low candidates;
          },
          persist household_id recon.id fresh 0 now candidates db,
        )
    ]
