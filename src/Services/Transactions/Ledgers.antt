-- ===== src/Services/Transactions/Ledgers.antt =====
-- Sequences of requests over both ledgers: each commits or is rolled back.
use Prim.Native.String.{◌++◌ as concat}
use tulip_accounting.Prelude.{ℕ, ◌+◌, String, not, Option, none, some, List, [], ◌∷◌, false}
use tulip_accounting.Prelude.Dict.{lookup}
use tulip_accounting.Prelude.Results.{
  Error, Result, ok, err, Ensures, >>=-Ensures, >>=-Ensures_always, >>-Ensures, raise_if-Ensures,
}
use tulip_accounting.Periods.{Period}
use tulip_accounting.Transactions.{Uuid, Date, Transaction, check_transaction, in_ledger, is_some}
use tulip_accounting.Accounting.{build_reversal, post_transaction}
use tulip_accounting.Allocation.Shadow.{ShadowTransaction, derive_paired_shadow_tx}
use tulip_accounting.Storage.Ledger.{Repository, get_or_raise, save_balanced, persist_reversal}
use tulip_accounting.Storage.Ledger.Balance.{IsLedger}
use tulip_accounting.Storage.Ledger.Kept.{save-keeps, persist_reversal-keeps}
use tulip_accounting.Storage.Ledger.Invariant.{IsLedger-rules}
use tulip_accounting.Storage.Queries.{list_postings}
use tulip_accounting.Storage.Budget.{Budget}
use tulip_accounting.Storage.Budget.Pools.{get_or_create_system_pools}
use tulip_accounting.Storage.Budget.Shadow.{save_shadow, void_shadow, get_paired_id_for_main_tx}
use tulip_accounting.Storage.Budget.Shadow.Book.{second}
use tulip_accounting.Runner.EnvelopeRefill.Settled.{
  IsSound, save-IsSound, void-IsSound, pools-IsSound,
}
use tulip_accounting.Services.Transactions.{
  AccountRow, TransactionCreate, Session, Draws, account_type, check_accounts, pool_currencies,
  spent_pools, domain_postings, save_paired, stored_postings, void_paired, pending_of, domain_of,
  save_both, reverse_both, create_transaction, void_transaction,
}

-- Both ledgers balance, and every shadow posting has its header.
abbrev pub AreBalanced : Session → Type 0
AreBalanced s = IsLedger s.db × IsSound s.budget

of_second :
    {A : Type 0} (r : Result (A × Budget))
    → Ensures IsSound (second r)
    → Ensures (λ x. IsSound x.1) r
of_second (ok x) h = h
of_second (err e) h = h

spent-IsSound :
    (pool_ids : ℕ → ℕ → Uuid) (k : ℕ) (hh : Uuid) (cs : List String) (b : Budget)
    → IsSound b
    → Ensures (λ r. IsSound r.1) (spent_pools pool_ids k hh cs b)
unfolding spent_pools
spent-IsSound pool_ids k hh [] b sound = sound
spent-IsSound pool_ids k hh (c ∷ cs) b sound =
    >>=-Ensures (λ r. IsSound r.1) (λ r. IsSound r.1)
      (get_or_create_system_pools (pool_ids k) hh c b) _ (pools-IsSound (pool_ids k) hh c b sound)
      λ made s.
        >>=-Ensures (λ r. IsSound r.1) (λ r. IsSound r.1)
          (spent_pools pool_ids (k + 1) hh cs made.1) _
          (spent-IsSound pool_ids (k + 1) hh cs made.1 s) λ rest s'. s'

paired-IsSound :
    (hh : Uuid) (shadow : Option ShadowTransaction) (now : ℕ) (b : Budget)
    → IsSound b
    → Ensures (λ r. IsSound r.1) (save_paired hh shadow now b)
unfolding save_paired
paired-IsSound hh none now b sound = sound
paired-IsSound hh (some tx) now b sound =
    >>=-Ensures (λ r. IsSound r.1) (λ r. IsSound r.1) (save_shadow hh tx now b) _
      (of_second (save_shadow hh tx now b) (save-IsSound hh tx now b sound)) λ saved s. s

voided-IsSound :
    (hh : Uuid) (paired : Option Uuid) (at : ℕ) (b : Budget)
    → IsSound b
    → Ensures IsSound (void_paired hh paired at b)
unfolding void_paired
voided-IsSound hh none at b sound = sound
voided-IsSound hh (some id) at b sound =
    >>=-Ensures (λ r. IsSound r.1) IsSound (void_shadow hh id at b) _
      (of_second (void_shadow hh id at b) (void-IsSound hh id at b sound)) λ r s. s

module _ (encrypt : String → Uuid → Uuid → String → String) (repo : Repository)
    (accounts : List AccountRow) (periods : List Period) (user_id : Uuid) where
  save_both-AreBalanced :
      (draws : Draws) (body : TransactionCreate) (posted : Transaction)
      (shadow : Option ShadowTransaction) (s : Session)
      → AreBalanced s
      → Ensures
          (λ r. AreBalanced r.1)
          (save_both encrypt repo accounts periods user_id draws body posted shadow s)
  unfolding save_both save_balanced
  save_both-AreBalanced draws body posted shadow s (led, sound) =
      >>=-Ensures (λ r. IsLedger r.1) (λ r. AreBalanced r.1)
        (save_balanced encrypt repo posted none body.notes draws.now s.db) _
        (save-keeps encrypt repo IsLedger (IsLedger-rules repo.household_id) posted posted.status
          none body.notes draws.now s.db led)
        λ saved l.
          >>=-Ensures (λ r. IsSound r.1) (λ r. AreBalanced r.1)
            (save_paired repo.household_id shadow draws.now s.budget) _
            (paired-IsSound repo.household_id shadow draws.now s.budget sound) λ paired b. (l, b)

  reverse_both-AreBalanced :
      (draws : Draws) (tx_id : Uuid) (posted : Transaction) (s : Session)
      → AreBalanced s
      → Ensures
          (λ r. AreBalanced r.1)
          (reverse_both encrypt repo accounts periods user_id draws tx_id posted s)
  unfolding reverse_both
  reverse_both-AreBalanced draws tx_id posted s (led, sound) =
      >>=-Ensures (λ r. IsLedger r.1) (λ r. AreBalanced r.1)
        (persist_reversal encrypt repo tx_id posted draws.now draws.now s.db) _
        (persist_reversal-keeps encrypt repo IsLedger (IsLedger-rules repo.household_id) tx_id
          posted draws.now draws.now s.db led)
        λ saved l.
          >>=-Ensures_always (λ r. AreBalanced r.1)
            (get_paired_id_for_main_tx repo.household_id tx_id s.budget) _
            λ paired.
              >>=-Ensures IsSound (λ r. AreBalanced r.1)
                (void_paired repo.household_id paired draws.now s.budget) _
                (voided-IsSound repo.household_id paired draws.now s.budget sound)
                λ budget b. (l, b)

  create-AreBalanced :
      (draws : Draws) (body : TransactionCreate) (s : Session)
      → AreBalanced s
      → Ensures
          (λ r. AreBalanced r.1)
          (create_transaction encrypt repo accounts periods user_id draws body s)
  unfolding create_transaction
  create-AreBalanced draws body s (led, sound) =
      let hh = repo.household_id in
      >>-Ensures (λ r. AreBalanced r.1) (check_accounts hh accounts body.postings) _
        λ _.
          >>=-Ensures_always (λ r. AreBalanced r.1)
            (pool_currencies hh accounts body.postings s.budget []) _
            λ currencies.
              >>=-Ensures (λ r. IsSound r.1) (λ r. AreBalanced r.1)
                (spent_pools draws.pool_ids 0 hh currencies s.budget) _
                (spent-IsSound draws.pool_ids 0 hh currencies s.budget sound)
                λ spent b.
                  >>=-Ensures_always (λ r. AreBalanced r.1)
                    (domain_postings draws.posting_ids 0 body.postings) _
                    λ postings.
                      >>=-Ensures_always (λ r. AreBalanced r.1)
                        (check_transaction (pending_of draws hh user_id body postings)) _
                        λ pending.
                          >>=-Ensures_always (λ r. AreBalanced r.1)
                            (post_transaction pending periods false) _
                            λ posted.
                              >>=-Ensures_always (λ r. AreBalanced r.1)
                                (derive_paired_shadow_tx draws.leg_ids (account_type hh accounts)
                                  (λ c. lookup c spent.0) posted)
                                _
                                λ shadow.
                                  save_both-AreBalanced draws body posted shadow
                                    (record s { budget = spent.1 }) (led, b)

  void-AreBalanced :
      (draws : Draws) (tx_id : Uuid) (reversal_date : Date) (reason : String) (s : Session)
      → AreBalanced s
      → Ensures
          (λ r. AreBalanced r.1)
          (void_transaction encrypt repo accounts periods user_id draws tx_id reversal_date reason
            s)
  unfolding void_transaction
  void-AreBalanced draws tx_id reversal_date reason s balanced =
      let hh = repo.household_id in
      >>=-Ensures_always (λ r. AreBalanced r.1) (get_or_raise repo tx_id s.db) _
        λ source.
          raise_if-Ensures (λ r. AreBalanced r.1) (is_some source.voided_by_transaction_id)
            Error.already_voided _
            λ _.
              raise_if-Ensures (λ r. AreBalanced r.1) (not (in_ledger source.status))
                Error.not_voidable _
                λ _.
                  >>=-Ensures_always (λ r. AreBalanced r.1)
                    (stored_postings (list_postings hh tx_id s.db)) _
                    λ postings.
                      >>=-Ensures_always (λ r. AreBalanced r.1)
                        (check_transaction (domain_of source postings)) _
                        λ domain.
                          >>=-Ensures_always (λ r. AreBalanced r.1)
                            (build_reversal draws.posting_ids domain draws.tx_id reversal_date
                              (concat (concat (concat "Reversal of " domain.description) ": ")
                                reason)
                              (some user_id))
                            _
                            λ reversal.
                              >>=-Ensures_always (λ r. AreBalanced r.1)
                                (post_transaction reversal periods false) _
                                λ posted. reverse_both-AreBalanced draws tx_id posted s balanced

-- A request of one household, and any number of them: a request that raises is rolled back.
pub data Request : Type 0 where
  creating : Draws → TransactionCreate → Request
  voiding : Draws → Uuid → Date → String → Request

abbrev pub session_after {ℓ} : {A : Type ℓ} → Result (A × Session) → Session → Session
session_after (ok r) before = r.1
session_after (err e) before = before

module _ (encrypt : String → Uuid → Uuid → String → String) (repo : Repository)
    (accounts : List AccountRow) (periods : List Period) (user_id : Uuid) where
  unfoldable pub serve : Request → Session → Session
  serve (creating draws body) s =
      session_after (create_transaction encrypt repo accounts periods user_id draws body s) s
  serve (voiding draws tx_id reversal_date reason) s =
      session_after
        (void_transaction encrypt repo accounts periods user_id draws tx_id reversal_date reason s)
        s

  unfoldable pub serve_all : List Request → Session → Session
  unfolding serve
  serve_all [] s = s
  serve_all (r ∷ rs) s = serve_all rs (serve r s)

after-AreBalanced {ℓ} :
    {A : Type ℓ} (r : Result (A × Session)) (s : Session)
    → Ensures (λ x. AreBalanced x.1) r
    → AreBalanced s
    → AreBalanced (session_after r s)
after-AreBalanced (ok r) s h balanced = h
after-AreBalanced (err e) s h balanced = balanced

-- If the postings of every posted transaction of either ledger sum to zero in every currency, and every
-- shadow posting has its header, they do so after any sequence of requests that create and void
-- transactions, with any identifiers drawn and whichever of the requests raise.
pub serve_all-AreBalanced :
    (encrypt : String → Uuid → Uuid → String → String) (repo : Repository)
    (accounts : List AccountRow) (periods : List Period) (user_id : Uuid) (rs : List Request)
    (s : Session)
    → AreBalanced s
    → AreBalanced (serve_all encrypt repo accounts periods user_id rs s)
unfolding serve_all serve
serve_all-AreBalanced encrypt repo accounts periods user_id [] s balanced = balanced
serve_all-AreBalanced encrypt repo accounts periods user_id (creating draws body ∷ rs) s balanced =
    serve_all-AreBalanced encrypt repo accounts periods user_id rs _ (
      after-AreBalanced (create_transaction encrypt repo accounts periods user_id draws body s) s
        (create-AreBalanced encrypt repo accounts periods user_id draws body s balanced) balanced)
serve_all-AreBalanced encrypt repo accounts periods user_id
      (voiding draws tx_id reversal_date reason ∷ rs) s balanced =
    serve_all-AreBalanced encrypt repo accounts periods user_id rs _ (
      after-AreBalanced
        (void_transaction encrypt repo accounts periods user_id draws tx_id reversal_date reason s)
        s
        (void-AreBalanced encrypt repo accounts periods user_id draws tx_id reversal_date reason s
          balanced)
        balanced)
