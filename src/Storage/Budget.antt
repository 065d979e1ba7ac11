-- ===== src/Storage/Budget.antt =====
-- The tables of the shadow ledger: models/shadow_transaction.py, shadow_posting.py, allocation_pool.py and
-- envelope.py, without `created_at` and `updated_at`. The rows of pools and of the shadow ledger are
-- a state of their own, beside the main ledger's.
pub mod Triggers
pub mod Shadow
pub mod Queries
pub mod Pools
use tulip_accounting.Prelude.{ℕ, Bool, ◌&&◌, String, Option, List, [], ◌∷◌, ◌==◌}
use tulip_accounting.Decimal.{Decimal}
use tulip_accounting.Money.{Money}
use tulip_accounting.Transactions.{Uuid, Date}
use tulip_accounting.Allocation.{PoolType, BudgetPeriod, RolloverPolicy}
use tulip_accounting.Allocation.Shadow.{ShadowTxStatus, ShadowTxReason}

-- `models.ShadowTransaction`
pub record ShadowHeader : Type 0 where
  pub household_id : Uuid
  pub id : Uuid
  pub date : Date
  pub description : String
  pub reason : ShadowTxReason
  pub status : ShadowTxStatus
  pub paired_main_tx_id : Option Uuid
  pub voided_by_shadow_tx_id : Option Uuid
  pub voided_at : Option ℕ
  pub posted_at : Option ℕ
  pub created_by_user_id : Option Uuid

-- `models.ShadowPosting`
pub record ShadowRow : Type 0 where
  pub id : Uuid
  pub household_id : Uuid
  pub shadow_transaction_id : Uuid
  pub pool_id : Uuid
  pub amount : Decimal
  pub currency : String
  pub memo : Option String

-- `models.AllocationPool`
pub record PoolRow : Type 0 where
  pub household_id : Uuid
  pub id : Uuid
  pub pool_type : PoolType
  pub name : String
  pub visibility : String
  pub currency : String
  pub is_active : Bool
  pub is_system : Bool
  pub created_by_user_id : Option Uuid

-- `models.Envelope`
pub record EnvelopeRow : Type 0 where
  pub household_id : Uuid
  pub pool_id : Uuid
  pub budget_period : BudgetPeriod
  pub budget_amount : Option Decimal
  pub rollover_policy : RolloverPolicy
  pub refill_rule_json : Option String

-- What a session sees of them.
pub record Budget : Type 0 where
  pub shadow_headers : List ShadowHeader
  pub shadow_rows : List ShadowRow
  pub pools : List PoolRow
  pub envelopes : List EnvelopeRow

-- The composite keys, and the foreign key of a posting.
abbrev pub is_shadow : Uuid → Uuid → ShadowHeader → Bool
is_shadow household_id id h = h.household_id == household_id && h.id == id

abbrev pub is_leg_of : Uuid → Uuid → ShadowRow → Bool
is_leg_of household_id tx_id p = p.household_id == household_id && p.shadow_transaction_id == tx_id

abbrev pub is_pool : Uuid → Uuid → PoolRow → Bool
is_pool household_id id p = p.household_id == household_id && p.id == id

-- The amounts and currencies of shadow postings.
abbrev pub leg_amounts : List ShadowRow → List Money
leg_amounts [] = []
leg_amounts (p ∷ ps) = record { amount = p.amount; currency = p.currency } ∷ leg_amounts ps
