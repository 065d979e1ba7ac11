-- ===== src/Storage/Budget/Pools.antt =====
-- repositories/allocation_pool.py and repositories/envelope.py. The identifier that `uuid4` draws is an
-- argument; `json.dumps` of a rule is its text. The collation of names in `ORDER BY` is a parameter.
pub mod Turns
pub mod System
use Prim.Native.String.{◌++◌ as concat}
use tulip_accounting.Prelude.{
  ℕ, Bool, true, false, not, ◌&&◌, ◌||◌, String, str_eq, Option, none, some, List, [], ◌∷◌, ◌++◌,
  ◌==◌, keep, if◌then◌else◌,
}
use tulip_accounting.Prelude.Results.{Error, Result, ok, err, raise_if, ◌>>◌, ◌>>=◌}
use tulip_accounting.Decimal.{Decimal}
use tulip_accounting.Transactions.{Uuid}
use tulip_accounting.Allocation.{PoolType, BudgetPeriod, RolloverPolicy, is_system_type}
use tulip_accounting.Storage.Tables.{find, update, exists}
use tulip_accounting.Storage.Ledger.{or_not_found}
use tulip_accounting.Storage.Rows.{stored_or_null}
use tulip_accounting.Storage.Budget.{Budget, PoolRow, EnvelopeRow, is_pool}
use tulip_accounting.Storage.Budget.Queries.{is_among}

abbrev pub same_type : PoolType → PoolType → Bool
same_type PoolType.envelope PoolType.envelope = true
same_type PoolType.sinking_fund PoolType.sinking_fund = true
same_type PoolType.inflow PoolType.inflow = true
same_type PoolType.unallocated PoolType.unallocated = true
same_type PoolType.spent PoolType.spent = true
same_type _ _ = false

-- `get`
abbrev pub get_pool : Uuid → Uuid → Budget → Option PoolRow
get_pool household_id id b = find (is_pool household_id id) b.pools

abbrev pub is_system_pool : Uuid → PoolType → String → PoolRow → Bool
is_system_pool household_id pool_type currency p =
    p.household_id == household_id
    && same_type p.pool_type pool_type
    && str_eq p.currency currency
    && p.is_system

-- The keys of the table: the primary key, and the index that is unique over system pools.
abbrev pub pool_taken : PoolRow → Budget → Bool
pool_taken p b =
    exists (is_pool p.household_id p.id) b.pools
    || (p.is_system && exists (is_system_pool p.household_id p.pool_type p.currency) b.pools)

unfoldable pub insert_pool : PoolRow → Budget → Result (PoolRow × Budget)
insert_pool p b = do
  raise_if (pool_taken p b) Error.integrity_error
  ok (p, record b { pools = b.pools ++ (p ∷ []) })

-- `create`
unfoldable pub create_pool :
    Uuid
    → Uuid
    → PoolType
    → String
    → String
    → String
    → Bool
    → Option Uuid
    → Budget
    → Result (PoolRow × Budget)
unfolding insert_pool
create_pool household_id id pool_type name currency visibility is_system created_by b =
    insert_pool
      (record {
        household_id = household_id;
        id = id;
        pool_type = pool_type;
        name = name;
        visibility = visibility;
        currency = currency;
        is_active = true;
        is_system = is_system;
        created_by_user_id = created_by;
      })
      b

-- `list_by_ids`
abbrev pub list_by_ids : Uuid → List Uuid → Budget → List PoolRow
list_by_ids household_id ids b =
    keep (λ p. p.household_id == household_id && is_among ids p.id) b.pools

module _ (name_before : String → String → Bool) where
  -- `order_by(is_system, name)`: false comes first.
  abbrev pub pool_before : PoolRow → PoolRow → Bool
  pool_before p q =
      (not p.is_system && q.is_system)
      || ((p.is_system || not q.is_system)
          && (not p.is_system || q.is_system)
          && name_before p.name q.name)

  abbrev pub by_order : PoolRow → List PoolRow → List PoolRow
  by_order p [] = p ∷ []
  by_order p (q ∷ qs) = if pool_before p q then p ∷ q ∷ qs else q ∷ by_order p qs

  abbrev pub ordered : List PoolRow → List PoolRow
  ordered [] = []
  ordered (p ∷ ps) = by_order p (ordered ps)

  -- `list_active`
  abbrev pub list_active : Uuid → Budget → List PoolRow
  list_active household_id b =
      ordered (keep (λ p. p.household_id == household_id && p.is_active) b.pools)

abbrev pub with_pool : Uuid → Uuid → (PoolRow → PoolRow) → Budget → Budget
with_pool household_id id f b = record b { pools = update (is_pool household_id id) f b.pools }

-- `deactivate`
unfoldable pub deactivate : Uuid → Uuid → Budget → Result (PoolRow × Budget)
deactivate household_id id b = do
  p ← or_not_found (get_pool household_id id b)
  raise_if p.is_system Error.system_pool
  let off = λ (q : PoolRow). record q { is_active = false }
  ok (off p, with_pool household_id id off b)

-- `redact`
unfoldable pub redact_pool : Uuid → Uuid → String → Budget → Result (PoolRow × Budget)
redact_pool household_id id name b = do
  p ← or_not_found (get_pool household_id id b)
  let renamed = λ (q : PoolRow). record q { name = name }
  ok (renamed p, with_pool household_id id renamed b)

-- `get_system_pool`
unfoldable pub get_system_pool : Uuid → PoolType → String → Budget → Result (Option PoolRow)
get_system_pool household_id pool_type currency b = do
  raise_if (not (is_system_type pool_type)) Error.not_a_system_pool
  ok (find (is_system_pool household_id pool_type currency) b.pools)

-- `_SYSTEM_POOL_NAMES`; the other types are not asked for.
abbrev pub system_pool_name : PoolType → String
system_pool_name PoolType.inflow = "Inflow"
system_pool_name PoolType.unallocated = "Unallocated"
system_pool_name PoolType.spent = "Spent"
system_pool_name _ = ""

-- `if existing is None`
unfoldable pub or_create :
    Uuid → Uuid → PoolType → String → Budget → Option PoolRow → Result (PoolRow × Budget)
unfolding create_pool
or_create household_id id pool_type currency b (some p) = ok (p, b)
or_create household_id id pool_type currency b none =
    create_pool household_id id pool_type
      (concat (concat (system_pool_name pool_type) " ") currency) currency "shared" true none b

-- One turn of the loop of `get_or_create_system_pools`.
unfoldable pub get_or_create : Uuid → Uuid → PoolType → String → Budget → Result (PoolRow × Budget)
unfolding get_system_pool or_create
get_or_create household_id id pool_type currency b = do
  existing ← get_system_pool household_id pool_type currency b
  or_create household_id id pool_type currency b existing

-- The dict that `get_or_create_system_pools` returns
pub record SystemPools : Type 0 where
  pub inflow : PoolRow
  pub unallocated : PoolRow
  pub spent : PoolRow

-- `get_or_create_system_pools`: a row that is missing gets the identifier drawn for its type.
unfoldable pub get_or_create_system_pools :
    (ℕ → Uuid) → Uuid → String → Budget → Result (SystemPools × Budget)
unfolding get_or_create
get_or_create_system_pools fresh household_id currency b = do
  inflow ← get_or_create household_id (fresh 0) PoolType.inflow currency b
  unallocated ← get_or_create household_id (fresh 1) PoolType.unallocated currency inflow.1
  spent ← get_or_create household_id (fresh 2) PoolType.spent currency unallocated.1
  ok (record { inflow = inflow.0; unallocated = unallocated.0; spent = spent.0 }, spent.1)

-- `EnvelopeRepository.get`: the row of the pool joined with the row of the envelope
abbrev pub is_envelope_row : Uuid → Uuid → EnvelopeRow → Bool
is_envelope_row household_id pool_id e = e.household_id == household_id && e.pool_id == pool_id

abbrev pub is_envelope_pool : Uuid → Uuid → PoolRow → Bool
is_envelope_pool household_id pool_id p =
    is_pool household_id pool_id p && same_type p.pool_type PoolType.envelope

-- Both rows, or none
abbrev pub both {ℓ κ} : {A : Type ℓ} {B : Type κ} → Option A → Option B → Option (A × B)
both none e = none
both (some p) none = none
both (some p) (some e) = some (p, e)

unfoldable pub get_envelope : Uuid → Uuid → Budget → Option (PoolRow × EnvelopeRow)
get_envelope household_id pool_id b =
    both (find (is_envelope_pool household_id pool_id) b.pools)
      (find (is_envelope_row household_id pool_id) b.envelopes)

-- `EnvelopeRepository.create`
unfoldable pub create_envelope :
    Uuid
    → Uuid
    → String
    → String
    → BudgetPeriod
    → RolloverPolicy
    → Option Decimal
    → Option String
    → String
    → Option Uuid
    → Budget
    → Result ((PoolRow × EnvelopeRow) × Budget)
unfolding create_pool
create_envelope household_id id name currency period rollover amount rule visibility created_by b =
    do
      made ←
          create_pool household_id id PoolType.envelope name currency visibility false created_by b
      raise_if (exists (is_envelope_row household_id id) b.envelopes) Error.integrity_error
      let row : EnvelopeRow = record {
        household_id = household_id;
        pool_id = id;
        budget_period = period;
        budget_amount = stored_or_null amount;
        rollover_policy = rollover;
        refill_rule_json = rule;
      }
      ok ((made.0, row), record made.1 { envelopes = made.1.envelopes ++ (row ∷ []) })

-- An argument that is `None` leaves a field unchanged.
abbrev pub given {ℓ} : {A : Type ℓ} → Option A → A → A
given none old = old
given (some new) old = new

abbrev pub given_or_kept {ℓ} : {A : Type ℓ} → Option A → Option A → Option A
given_or_kept none old = old
given_or_kept (some new) old = some new

abbrev pub rule_text : Option String → Bool → Option String → Option String
rule_text (some rule) clear old = some rule
rule_text none true old = none
rule_text none false old = old

-- `EnvelopeRepository.update_fields`
unfoldable pub update_envelope :
    Uuid
    → Uuid
    → Option String
    → Option String
    → Option BudgetPeriod
    → Option Decimal
    → Option RolloverPolicy
    → Option String
    → Bool
    → Budget
    → Result ((PoolRow × EnvelopeRow) × Budget)
unfolding get_envelope
update_envelope household_id id name visibility period amount rollover rule clear b = do
  existing ← or_not_found (get_envelope household_id id b)
  let pool = λ (p : PoolRow). record p {
    name = given name p.name;
    visibility = given visibility p.visibility;
  }
  let row = λ (e : EnvelopeRow). record e {
    budget_period = given period e.budget_period;
    budget_amount = given_or_kept (stored_or_null amount) e.budget_amount;
    rollover_policy = given rollover e.rollover_policy;
    refill_rule_json = rule_text rule clear e.refill_rule_json;
  }
  ok (
    (pool existing.0, row existing.1),
    record b {
      pools = update (is_pool household_id id) pool b.pools;
      envelopes = update (is_envelope_row household_id id) row b.envelopes;
    },
  )
