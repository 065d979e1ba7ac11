-- ===== src/Tests/Shadow.antt =====
-- The shadow ledger and refills.
use tulip_accounting.Prelude.{
  ◌≡◌, ◌↔◌, refl, Bool, true, false, ◌==◌, String, str_eq, Option, none, some, List, [], ◌∷◌, All,
  if◌then◌else◌,
}
use tulip_accounting.Prelude.Int.{pos, negsuc, ◌+ℤ◌, ◌*ℤ◌, -ℤ◌, times_ten}
use tulip_accounting.Prelude.Results.{Error, ok, err, ◌>>=◌}
use tulip_accounting.Decimal.{Decimal, add, sub, neg, mul, le, shift, is_negative}
use tulip_accounting.Currency.{from_code}
use tulip_accounting.Money.{Money, zero_money}
use tulip_accounting.Account.{AccountType}
use tulip_accounting.Transactions.{Uuid, Posting}
use tulip_accounting.Allocation.{Pool, PoolType, RefillRule, RefillStrategy, check_refill_rule}
use tulip_accounting.Allocation.Refill.{evaluate_refill_rule}
use tulip_accounting.Allocation.Refill.Bounds.{evaluate-share}
use tulip_accounting.Allocation.Shadow.{
  ShadowTransaction, ShadowTxStatus, ShadowTxReason, shadow_is_balanced, check_shadow_transaction,
  derive_paired_shadow_tx, post_shadow_transaction, as_shadow_posted,
}
use tulip_accounting.Allocation.Shadow.Pairing.{paired, PairedOutcome, derive_paired_lem}
use tulip_accounting.Allocation.Shadow.Post.{IsLegOk, post_shadow_transaction_iff}
use tulip_accounting.Tests.Data.{decimal, usd, eur, posting, groceries, fresh_ids}

-- Account 20 is for expenses.
abbrev account_types : Uuid → Option AccountType
account_types a = if a == 20 then some AccountType.expense else some AccountType.asset

abbrev spent_pools : String → Option Uuid
spent_pools c = if str_eq c "USD" then some 39 else none

abbrev tagged : List (Uuid × Posting)
tagged =
    (31, posting 101 20 (usd (pos 1000)) (some 31))
    ∷ (32, posting 102 20 (usd (pos 250)) (some 32))
    ∷ []

abbrev shadow : ShadowTransaction
shadow = paired fresh_ids groceries "USD" tagged 39

derived : derive_paired_shadow_tx fresh_ids account_types spent_pools groceries ≡ ok (some shadow)
unfolding derive_paired_shadow_tx add neg mul shift times_ten ◌+ℤ◌ ◌*ℤ◌ -ℤ◌ from_code
derived = refl

derive_paired_lem_example :
    derive_paired_shadow_tx fresh_ids account_types spent_pools groceries ≡ (
      PairedOutcome fresh_ids account_types groceries "USD" tagged (spent_pools "USD") >>= λ tx.
      ok (some tx))
unfolding from_code
derive_paired_lem_example =
    derive_paired_lem fresh_ids account_types spent_pools groceries 31
      (posting 101 20 (usd (pos 1000)) (some 31))
      ((32, posting 102 20 (usd (pos 250)) (some 32)) ∷ []) refl refl

abbrev pool : Uuid → PoolType → Bool → Pool
pool id kind is_system = record {
  id = id;
  household_id = 1;
  pool_type = kind;
  name = "Food";
  currency = "USD";
  visibility = "shared";
  is_active = true;
  is_system = is_system;
}

abbrev pools : List Pool
pools =
    pool 31 PoolType.envelope false
    ∷ pool 32 PoolType.envelope false
    ∷ pool 39 PoolType.spent true
    ∷ []

abbrev transfer : ShadowTransaction
transfer = record {
  id = 200;
  household_id = 1;
  date = 738_010;
  description = "Move";
  reason = ShadowTxReason.transfer;
  postings =
      record { id = 201; pool_id = 31; amount = usd (pos 500); memo = none }
      ∷ record { id = 202; pool_id = 32; amount = usd (negsuc 499); memo = none }
      ∷ [];
  status = ShadowTxStatus.pending;
  paired_main_tx_id = none;
  created_by_user_id = none;
}

inactive :
    post_shadow_transaction transfer
      (record (pool 31 PoolType.envelope false) { is_active = false } ∷ [])
    ≡ err Error.inactive_pool
unfolding post_shadow_transaction
inactive = refl

post_shadow_transaction_iff_example :
    (post_shadow_transaction transfer pools ≡ ok (as_shadow_posted transfer))
    ↔ (All (IsLegOk 1 pools) transfer.postings × (shadow_is_balanced transfer ≡ true))
unfolding check_shadow_transaction
post_shadow_transaction_iff_example = post_shadow_transaction_iff transfer pools refl refl

abbrev rule : RefillStrategy → Option Money → Option Decimal → RefillRule
rule s a p = record { strategy = s; amount = a; percentage = p }

abbrev top_up : RefillRule
top_up = rule RefillStrategy.fill_to_amount (some (usd (pos 5000))) none

-- 12.5 percent
abbrev share : RefillRule
share = rule RefillStrategy.percentage_of_income none (some (decimal (pos 125) 3))

refills :
    (evaluate_refill_rule top_up (usd (pos 1200)) none ≡ ok (usd (pos 3800)))
    × (evaluate_refill_rule top_up (usd (pos 6000)) none ≡ zero_money "USD")
    × (evaluate_refill_rule share (usd (pos 0)) (some (usd (pos 10_000)))
        ≡ ok (record { amount = decimal (pos 1_250_000) 5; currency = "USD" }))
    × (evaluate_refill_rule share (usd (pos 0)) (some (eur (pos 10_000)))
        ≡ err Error.currency_mismatch)
unfolding evaluate_refill_rule sub add neg mul shift times_ten ◌+ℤ◌ ◌*ℤ◌ -ℤ◌ from_code
refills = (refl, refl, refl, refl)

evaluate-share_example :
    (m : Money) × (evaluate_refill_rule share (usd (pos 0)) (some (usd (pos 10_000))) ≡ ok m)
    × (m.currency ≡ "USD")
    × (is_negative m.amount ≡ false)
    × (le m.amount (usd (pos 10_000)).amount ≡ true)
unfolding from_code check_refill_rule le shift times_ten
evaluate-share_example =
    evaluate-share share (usd (pos 0)) (usd (pos 10_000)) refl refl refl refl refl
