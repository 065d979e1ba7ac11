-- ===== src/Allocation/Shadow.antt =====
-- tulip_core/allocation: the shadow ledger (shadow_posting.py, shadow_transaction.py) and its engine
-- (engine.py). The identifiers that `uuid4` draws are `fresh 0`, `fresh 1`, … as in the main ledger.
pub mod Pairing
pub mod Post
use Prim.Native.String.{◌++◌ as concat}
use tulip_accounting.Prelude.{
  ℕ, ◌+◌, Bool, true, false, not, ◌&&◌, ◌||◌, String, Option, none, some, List, [], ◌∷◌, ◌++◌, ltb,
  ◌==◌, length, all_of, if◌then◌else◌, str_eq,
}
use tulip_accounting.Prelude.Int.{pos, negsuc}
use tulip_accounting.Prelude.Results.{Error, Result, ok, err, raise_if, ◌>>◌, ◌>>=◌}
use tulip_accounting.Prelude.Dict.{Dict}
use tulip_accounting.Decimal.{Decimal, nought, add, neg, mul, is_negative}
use tulip_accounting.Money.{Money, money}
use tulip_accounting.Account.{AccountType}
use tulip_accounting.Transactions.{Uuid, Date, Posting, Transaction, is_some, tally, entry_is_zero}
use tulip_accounting.Allocation.{Pool}

pub record ShadowPosting : Type 0 where
  pub id : Uuid
  pub pool_id : Uuid
  pub amount : Money
  pub memo : Option String

-- `ShadowTxStatus`
pub data ShadowTxStatus : Type 0 where
  pending posted voided : ShadowTxStatus

-- `ShadowTxReason`
pub data ShadowTxReason : Type 0 where
  budget_inflow refill spend transfer rollover manual : ShadowTxReason

pub record ShadowTransaction : Type 0 where
  pub id : Uuid
  pub household_id : Uuid
  pub date : Date
  pub description : String
  pub reason : ShadowTxReason
  pub postings : List ShadowPosting
  pub status : ShadowTxStatus
  pub paired_main_tx_id : Option Uuid
  pub created_by_user_id : Option Uuid

abbrev pub shadow_amounts : List ShadowPosting → List Money
shadow_amounts [] = []
shadow_amounts (p ∷ ps) = p.amount ∷ shadow_amounts ps

-- `ShadowTransaction.balance_per_currency`: the loop is the main ledger's.
unfoldable pub shadow_balance_per_currency : ShadowTransaction → Dict Decimal
unfolding tally
shadow_balance_per_currency tx = tally (shadow_amounts tx.postings) []

-- `ShadowTransaction.is_balanced`
unfoldable pub shadow_is_balanced : ShadowTransaction → Bool
unfolding shadow_balance_per_currency
shadow_is_balanced tx = all_of entry_is_zero (shadow_balance_per_currency tx)

abbrev pub is_shadow_posted : ShadowTxStatus → Bool
is_shadow_posted ShadowTxStatus.pending = false
is_shadow_posted ShadowTxStatus.posted = true
is_shadow_posted ShadowTxStatus.voided = false

abbrev pub is_voided : ShadowTxStatus → Bool
is_voided ShadowTxStatus.pending = false
is_voided ShadowTxStatus.posted = false
is_voided ShadowTxStatus.voided = true

-- `ShadowTransaction.__post_init__`
unfoldable pub check_shadow_transaction : ShadowTransaction → Result ShadowTransaction
unfolding shadow_is_balanced
check_shadow_transaction tx = do
  raise_if (ltb (length tx.postings) 2) Error.too_few_postings
  raise_if (is_shadow_posted tx.status && not (shadow_is_balanced tx)) Error.not_balanced
  ok tx

-- `[p for p in main_tx.postings if p.pool_id is not None]`, each with its pool.
abbrev pub pool_tagged : List Posting → List (Uuid × Posting)
pool_tagged [] = []
pool_tagged (p ∷ ps) = elim p.pool_id [
  | none ↦ pool_tagged ps
  | some pool ↦ (pool, p) ∷ pool_tagged ps
]

-- membership in `_PAIRABLE_ACCOUNT_TYPES`, of a type that may be unknown
abbrev pub is_pairable : Option AccountType → Bool
is_pairable (some AccountType.expense) = true
is_pairable _ = false

-- `_SIGN_FOR_ACCOUNT_TYPE`, negated as it is used, as a scalar
abbrev negated_sign : Option AccountType → Result Decimal
negated_sign (some AccountType.expense) = ok (record { coeff = negsuc 0; places = 0 })
negated_sign _ = err Error.key_error

module _ (fresh : ℕ → Uuid) (account_type : Uuid → Option AccountType) where
  -- The loop that builds a leg for each tagged posting and sums their effect.
  unfoldable pub shadow_legs :
      ℕ → String → List (Uuid × Posting) → Decimal → Result (List ShadowPosting × Decimal)
  unfolding money
  shadow_legs k currency [] net = ok ([], net)
  shadow_legs k currency ((pool, p) ∷ ps) net = do
    sign ← negated_sign (account_type p.account_id)
    let shadow_amount = mul sign p.amount.amount
    amount ← money shadow_amount currency
    rest ← shadow_legs (k + 1) currency ps (add net shadow_amount)
    ok (record { id = fresh k; pool_id = pool; amount = amount; memo = none } ∷ rest.0, rest.1)

  abbrev spent_or_raise : Option Uuid → Result Uuid
  spent_or_raise none = err Error.no_spent_pool
  spent_or_raise (some pool) = ok pool

  -- What follows once there are tagged postings, the first of them at hand.
  unfoldable pub pair_tagged :
      (String → Option Uuid)
      → Transaction
      → Posting
      → List (Uuid × Posting)
      → Result ShadowTransaction
  unfolding shadow_legs money check_shadow_transaction
  pair_tagged spent_pool main first tagged = do
    let currency = first.amount.currency
    raise_if (not (all_of (λ e. str_eq e.1.amount.currency currency) tagged))
        Error.multi_currency_tagging
    raise_if (not (all_of (λ e. is_pairable (account_type e.1.account_id)) tagged))
        Error.invalid_account_type
    legs ← shadow_legs 0 currency tagged nought
    raise_if (not (is_negative legs.1)) Error.refund_shaped
    spent ← spent_or_raise (spent_pool currency)
    absorbed ← money (neg legs.1) currency
    check_shadow_transaction (record {
      id = fresh (length tagged + 1);
      household_id = main.household_id;
      date = main.date;
      description = concat main.description " (envelope effects)";
      reason = ShadowTxReason.spend;
      postings =
          legs.0
          ++ (record { id = fresh (length tagged); pool_id = spent; amount = absorbed; memo = none }
              ∷ []);
      status = ShadowTxStatus.posted;
      paired_main_tx_id = some main.id;
      created_by_user_id = main.created_by_user_id;
    })

  pair_all :
      (String → Option Uuid)
      → Transaction
      → List (Uuid × Posting)
      → Result (Option ShadowTransaction)
  unfolding pair_tagged
  pair_all spent_pool main [] = ok none
  pair_all spent_pool main ((pool, p) ∷ ps) = do
    tx ← pair_tagged spent_pool main p ((pool, p) ∷ ps)
    ok (some tx)

  -- `derive_paired_shadow_tx`
  unfoldable pub derive_paired_shadow_tx :
      (String → Option Uuid) → Transaction → Result (Option ShadowTransaction)
  unfolding pair_all
  derive_paired_shadow_tx spent_pool main = pair_all spent_pool main (pool_tagged main.postings)

-- `pools_by_id.get(id)` of the dict built from the household's pools: the last of an id stays.
unfoldable pub find_pool : Uuid → Uuid → List Pool → Option Pool
find_pool household id [] = none
find_pool household id (p ∷ ps) = elim (find_pool household id ps) [
  | some q ↦ some q
  | none ↦ if p.household_id == household && p.id == id then some p else none
]

-- The checks of one posting against its pool.
unfoldable pub check_leg : Option Pool → ShadowPosting → Result (Unit {0})
check_leg none posting = err Error.unknown_pool
check_leg (some pool) posting = do
  raise_if (not pool.is_active) Error.inactive_pool
  raise_if (not (str_eq pool.currency posting.amount.currency)) Error.pool_currency_mismatch

unfoldable pub check_legs : Uuid → List Pool → List ShadowPosting → Result (Unit {0})
unfolding find_pool check_leg
check_legs household pools [] = ok tt
check_legs household pools (p ∷ ps) = do
  check_leg (find_pool household p.pool_id pools) p
  check_legs household pools ps

abbrev pub as_shadow_posted : ShadowTransaction → ShadowTransaction
as_shadow_posted tx = record tx { status = ShadowTxStatus.posted }

-- `post_shadow_transaction`
unfoldable pub post_shadow_transaction : ShadowTransaction → List Pool → Result ShadowTransaction
unfolding check_legs shadow_is_balanced check_shadow_transaction
post_shadow_transaction tx pools = if is_shadow_posted tx.status then ok tx else do
  raise_if (is_voided tx.status) Error.voided_shadow
  check_legs tx.household_id pools tx.postings
  raise_if (not (shadow_is_balanced tx)) Error.unbalanced_shadow
  check_shadow_transaction (as_shadow_posted tx)
