-- ===== src/Services/Transactions.antt =====
-- routers/transactions.py: the handlers `create_transaction` and `void_transaction` over the two ledgers.
-- An error carries the rule that was broken, not the HTTP problem; tags, the audit log and the answer's
-- body are left out. A handler that raises does not commit its session.
pub mod Ledgers
use Prim.Native.String.{◌++◌ as concat}
use tulip_accounting.Prelude.{
  ℕ, ◌+◌, Bool, true, false, not, ◌&&◌, String, str_eq, Option, none, some, List, [], ◌∷◌, ◌++◌,
  ◌==◌, if◌then◌else◌,
}
use tulip_accounting.Prelude.Dict.{Dict, lookup}
use tulip_accounting.Prelude.Results.{Error, Result, ok, err, raise_if, ◌>>◌, ◌>>=◌}
use tulip_accounting.Decimal.{Decimal}
use tulip_accounting.Money.{Money, money}
use tulip_accounting.Account.{AccountType}
use tulip_accounting.Periods.{Period}
use tulip_accounting.Transactions.{
  Uuid, Date, Posting, Transaction, TransactionStatus, in_ledger, check_posting, check_transaction,
  is_some,
}
use tulip_accounting.Accounting.{build_reversal, post_transaction}
use tulip_accounting.Allocation.Shadow.{ShadowTransaction, is_pairable, derive_paired_shadow_tx}
use tulip_accounting.Storage.Tables.{find}
use tulip_accounting.Storage.Rows.{Db, Header, PostingRow}
use tulip_accounting.Storage.Ledger.{Repository, get_or_raise, save_balanced, persist_reversal}
use tulip_accounting.Storage.Queries.{list_postings}
use tulip_accounting.Storage.Budget.{Budget, PoolRow}
use tulip_accounting.Storage.Budget.Pools.{get_pool, SystemPools, get_or_create_system_pools}
use tulip_accounting.Storage.Budget.Shadow.{save_shadow, void_shadow, get_paired_id_for_main_tx}

-- `models.Account`, as far as the handlers read it
pub record AccountRow : Type 0 where
  pub household_id : Uuid
  pub id : Uuid
  pub kind : AccountType
  pub is_placeholder : Bool

-- `PostingCreate`
pub record PostingCreate : Type 0 where
  pub account_id : Uuid
  pub amount : Decimal
  pub currency : String
  pub memo : Option String
  pub pool_id : Option Uuid

-- `TransactionCreate`, without tags
pub record TransactionCreate : Type 0 where
  pub date : Date
  pub description : String
  pub reference : Option String
  pub notes : Option String
  pub postings : List PostingCreate

-- The rows of both ledgers.
pub record Session : Type 0 where
  pub db : Db
  pub budget : Budget

-- What a request draws: the identifiers by their use, and the clock.
pub record Draws : Type 0 where
  pub tx_id : Uuid
  pub posting_ids : ℕ → Uuid
  pub pool_ids : ℕ → ℕ → Uuid
  pub leg_ids : ℕ → Uuid
  pub now : ℕ

-- `AccountRepository.get`
abbrev pub is_account : Uuid → Uuid → AccountRow → Bool
is_account household_id id a = a.household_id == household_id && a.id == id

abbrev pub get_account : Uuid → List AccountRow → Uuid → Option AccountRow
get_account household_id accounts id = find (is_account household_id id) accounts

abbrev pub account_type : Uuid → List AccountRow → Uuid → Option AccountType
account_type household_id accounts id = elim (get_account household_id accounts id) [
  | none ↦ none
  | some a ↦ some a.kind
]

abbrev pub check_postable : Option AccountRow → Result (Unit {0})
check_postable none = err Error.account_unknown
check_postable (some a) = raise_if a.is_placeholder Error.account_placeholder

-- The first loop: every account is there, and none is a placeholder.
unfoldable pub check_accounts : Uuid → List AccountRow → List PostingCreate → Result (Unit {0})
check_accounts household_id accounts [] = ok tt
check_accounts household_id accounts (p ∷ ps) = do
  check_postable (get_account household_id accounts p.account_id)
  check_accounts household_id accounts ps

-- The checks of a posting's pool, in their order.
unfoldable pub check_pool_of :
    Option AccountType → PostingCreate → Option PoolRow → Result (Unit {0})
check_pool_of kind p none = err Error.unknown_pool
check_pool_of kind p (some pool) = do
  raise_if (not pool.is_active) Error.inactive_pool
  raise_if (not (is_pairable kind)) Error.invalid_account_type
  raise_if (not (str_eq pool.currency p.currency)) Error.pool_currency_mismatch

abbrev pub add_currency : String → List String → List String
add_currency c [] = c ∷ []
add_currency c (d ∷ ds) = if str_eq d c then d ∷ ds else d ∷ add_currency c ds

-- The second loop: the currencies of the postings with a pool, a set whose order is left open.
unfoldable pub pool_currencies :
    Uuid → List AccountRow → List PostingCreate → Budget → List String → Result (List String)
unfolding check_pool_of
pool_currencies household_id accounts [] b found = ok found
pool_currencies household_id accounts (p ∷ ps) b found = elim p.pool_id [
  | none ↦ pool_currencies household_id accounts ps b found
  | some pool_id ↦ do
    check_pool_of (account_type household_id accounts p.account_id) p
        (get_pool household_id pool_id b)
    pool_currencies household_id accounts ps b (add_currency p.currency found)
]

-- The third loop: the pool for what is spent, in each currency.
unfoldable pub spent_pools :
    (ℕ → ℕ → Uuid) → ℕ → Uuid → List String → Budget → Result (Dict Uuid × Budget)
unfolding get_or_create_system_pools
spent_pools pool_ids k household_id [] b = ok ([], b)
spent_pools pool_ids k household_id (c ∷ cs) b = do
  made ← get_or_create_system_pools (pool_ids k) household_id c b
  rest ← spent_pools pool_ids (k + 1) household_id cs made.1
  ok ((c, made.0.spent.id) ∷ rest.0, rest.1)

-- The postings of the request as domain postings.
unfoldable pub domain_postings : (ℕ → Uuid) → ℕ → List PostingCreate → Result (List Posting)
unfolding money check_posting
domain_postings fresh k [] = ok []
domain_postings fresh k (p ∷ ps) = do
  amount ← money p.amount p.currency
  posting ← check_posting (record {
    id = fresh k;
    account_id = p.account_id;
    amount = amount;
    pool_id = p.pool_id;
    memo = p.memo;
    fx_rate = none;
    fx_amount = none;
  })
  rest ← domain_postings fresh (k + 1) ps
  ok (posting ∷ rest)

-- The shadow transaction is saved where there is one.
unfoldable pub save_paired :
    Uuid → Option ShadowTransaction → ℕ → Budget → Result (Option Uuid × Budget)
unfolding save_shadow
save_paired household_id none now b = ok (none, b)
save_paired household_id (some tx) now b = do
  saved ← save_shadow household_id tx now b
  ok (some saved.0.id, saved.1)

-- The postings of a stored transaction, without their exchange rates.
unfoldable pub stored_postings : List PostingRow → Result (List Posting)
unfolding money check_posting
stored_postings [] = ok []
stored_postings (p ∷ ps) = do
  amount ← money p.amount p.currency
  posting ← check_posting (record {
    id = p.id;
    account_id = p.account_id;
    amount = amount;
    pool_id = p.pool_id;
    memo = p.memo;
    fx_rate = none;
    fx_amount = none;
  })
  rest ← stored_postings ps
  ok (posting ∷ rest)

-- The paired shadow transaction is voided where there is one.
unfoldable pub void_paired : Uuid → Option Uuid → ℕ → Budget → Result Budget
unfolding void_shadow
void_paired household_id none voided_at b = ok b
void_paired household_id (some id) voided_at b = do
  r ← void_shadow household_id id voided_at b
  ok r.1

-- The request as a pending transaction.
abbrev pub pending_of : Draws → Uuid → Uuid → TransactionCreate → List Posting → Transaction
pending_of draws household_id user_id body postings = record {
  id = draws.tx_id;
  household_id = household_id;
  date = body.date;
  description = body.description;
  postings = postings;
  status = TransactionStatus.pending;
  reference = body.reference;
  created_by_user_id = some user_id;
  voided_by_transaction_id = none;
}

-- A stored transaction as a domain transaction.
abbrev pub domain_of : Header → List Posting → Transaction
domain_of source postings = record {
  id = source.id;
  household_id = source.household_id;
  date = source.date;
  description = source.description;
  postings = postings;
  status = source.status;
  reference = source.reference;
  created_by_user_id = source.created_by_user_id;
  voided_by_transaction_id = none;
}

module _ (encrypt : String → Uuid → Uuid → String → String) (repo : Repository)
    (accounts : List AccountRow) (periods : List Period) (user_id : Uuid) where
  -- The writes of `create_transaction`: the transaction, and the shadow transaction that pairs it
  unfoldable pub save_both :
      Draws
      → TransactionCreate
      → Transaction
      → Option ShadowTransaction
      → Session
      → Result ((Header × Option Uuid) × Session)
  unfolding save_balanced save_paired
  save_both draws body posted shadow s = do
    saved ← save_balanced encrypt repo posted none body.notes draws.now s.db
    paired ← save_paired repo.household_id shadow draws.now s.budget
    ok ((saved.0, paired.0), record { db = saved.1; budget = paired.1 })

  -- The writes of `void_transaction`: the reversal, and the shadow transaction that is voided
  unfoldable pub reverse_both : Draws → Uuid → Transaction → Session → Result (Header × Session)
  unfolding persist_reversal get_paired_id_for_main_tx void_paired
  reverse_both draws tx_id posted s = do
    saved ← persist_reversal encrypt repo tx_id posted draws.now draws.now s.db
    paired ← get_paired_id_for_main_tx repo.household_id tx_id s.budget
    budget ← void_paired repo.household_id paired draws.now s.budget
    ok (saved.0, record { db = saved.1; budget = budget })

  -- `create_transaction`
  unfoldable pub create_transaction :
      Draws → TransactionCreate → Session → Result ((Header × Option Uuid) × Session)
  unfolding check_accounts pool_currencies spent_pools domain_postings check_transaction
      post_transaction derive_paired_shadow_tx save_both
  create_transaction draws body s = do
    check_accounts repo.household_id accounts body.postings
    currencies ← pool_currencies repo.household_id accounts body.postings s.budget []
    spent ← spent_pools draws.pool_ids 0 repo.household_id currencies s.budget
    postings ← domain_postings draws.posting_ids 0 body.postings
    pending ← check_transaction (pending_of draws repo.household_id user_id body postings)
    posted ← post_transaction pending periods false
    shadow ←
        derive_paired_shadow_tx draws.leg_ids (account_type repo.household_id accounts)
          (λ c. lookup c spent.0) posted
    save_both draws body posted shadow (record s { budget = spent.1 })

  -- `void_transaction`: the date is the request's, or today
  unfoldable pub void_transaction :
      Draws → Uuid → Date → String → Session → Result (Header × Session)
  unfolding stored_postings check_transaction build_reversal post_transaction reverse_both
  void_transaction draws tx_id reversal_date reason s = do
    source ← get_or_raise repo tx_id s.db
    raise_if (is_some source.voided_by_transaction_id) Error.already_voided
    raise_if (not (in_ledger source.status)) Error.not_voidable
    postings ← stored_postings (list_postings repo.household_id tx_id s.db)
    domain ← check_transaction (domain_of source postings)
    reversal ←
        build_reversal draws.posting_ids domain draws.tx_id reversal_date
          (concat (concat (concat "Reversal of " domain.description) ": ") reason) (some user_id)
    posted ← post_transaction reversal periods false
    reverse_both draws tx_id posted s
