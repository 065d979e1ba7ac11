-- ===== src/Prelude/Results.antt =====
-- Python's exceptions as values: the outcome of a call that may raise.
use mathlib.Core.Path.{◌≡◌, refl, subst}
use mathlib.Core.Bool.{Bool, true, false}
use mathlib.Core.Logic.{◌⊎◌, inl, inr}

-- One constructor for each `raise` that the modelled code can reach.
pub data Error : Type 0 where
  -- tulip_core.money, tulip_core.currency
  currency_mismatch invalid_currency_code unknown_currency : Error
  -- tulip_core.account, tulip_core.periods
  invalid_account_code inverted_period : Error
  -- tulip_core.transactions
  fx_incomplete fx_rate_not_positive fx_same_currency : Error
  too_few_postings not_balanced pending_voided : Error
  -- tulip_core.accounting
  not_voidable unbalanced_transaction no_period closed_period : Error
  -- tulip_core.allocation
  empty_name bad_visibility system_flag_missing system_flag_forbidden system_not_shared : Error
  wrong_pool_type negative_budget target_not_positive contribution_forbidden : Error
  amount_required amount_forbidden amount_not_positive : Error
  percentage_required percentage_forbidden percentage_out_of_range : Error
  multi_currency_tagging invalid_account_type refund_shaped no_spent_pool : Error
  voided_shadow unknown_pool inactive_pool pool_currency_mismatch unbalanced_shadow : Error
  -- tulip_core.reconciliation
  bad_line_number empty_description empty_category split_currency_mismatch : Error
  score_out_of_range not_a_categorizer not_async : Error
  -- `assert` statements, and a missing key
  assertion key_error : Error
  -- an enumeration without the value, and a text that is no number
  bad_value invalid_decimal : Error
  -- tulip_core.insights, and the answers of categorizers
  window_too_small empty_account_code : Error
  -- tulip_storage: a missing row, a refused key, an aborting trigger, and the repositories' own errors
  not_found integrity_error trigger_abort master_key_required : Error
  key_conflict no_occurrence envelope_refill : Error
  already_voided not_editable not_rectifiable not_deletable : Error
  shadow_not_voidable system_pool not_a_system_pool multiple_rows : Error
  -- tulip_api: services.reconciliation_match and routers.reconciliations
  account_unknown account_placeholder : Error
  not_in_progress matches_exist unbalanced_reconciliation cascade_required : Error
  line_not_found line_not_in_batch line_matched amount_mismatch : Error
  tx_not_found account_mismatch not_paper tx_matched tx_not_in_period : Error

pub data Result {ℓ} (A : Type ℓ) : Type ℓ where
  ok : A → Result A
  err : Error → Result A

-- An error ends the chain, as an exception that nothing catches does.
module _ {ℓ κ} {A : Type ℓ} {B : Type κ} where
  infixl 5 ◌>>=◌ ◌>>◌
  abbrev pub ◌>>=◌ : Result A → (A → Result B) → Result B
  ok value >>= next = next value
  err raised >>= next = err raised

  abbrev pub ◌>>◌ : Result A → Result B → Result B
  ok value >> after = after
  err raised >> after = err raised

  -- Both parts of a chain that succeeded did.
  pub >>-eq-ok :
      {b : B} (r : Result A) (after : Result B)
      → (r >> after) ≡ ok b
      → (value : A) × (r ≡ ok value) × (after ≡ ok b)
  >>-eq-ok (ok value) after p = (value, refl, p)
  >>-eq-ok (err raised) after p = absurd (cc)

-- `if c: raise e`
abbrev pub raise_if : Bool → Error → Result (Unit {0})
raise_if true e = err e
raise_if false e = ok tt

abbrev pub is_ok {ℓ} : {A : Type ℓ} → Result A → Bool
is_ok (ok a) = true
is_ok (err e) = false

-- What holds of the value that a call returns; nothing is said of a call that raises.
abbrev pub Ensures {ℓ κ} : {A : Type ℓ} → (A → Type κ) → Result A → Type κ
Ensures P (ok a) = P a
Ensures P (err e) = Unit

pub Result-cases {ℓ} :
    {A : Type ℓ} (r : Result A) → ((a : A) × (r ≡ ok a)) ⊎ ((e : Error) × (r ≡ err e))
Result-cases (ok a) = inl (a, refl)
Result-cases (err e) = inr (e, refl)

-- A chain ensures what its last part ensures after what the first ensures.
pub >>=-Ensures {ℓ κ ℓ' κ'} :
    {A : Type ℓ} {B : Type ℓ'} (P : A → Type κ) (Q : B → Type κ') (r : Result A)
    (next : A → Result B)
    → Ensures P r
    → ((a : A) → P a → Ensures Q (next a))
    → Ensures Q (r >>= next)
>>=-Ensures P Q (ok a) next p f = f a p
>>=-Ensures P Q (err e) next p f = tt

pub >>=-Ensures_always {ℓ κ ℓ'} :
    {A : Type ℓ} {B : Type ℓ'} (Q : B → Type κ) (r : Result A) (next : A → Result B)
    → ((a : A) → Ensures Q (next a))
    → Ensures Q (r >>= next)
>>=-Ensures_always Q (ok a) next f = f a
>>=-Ensures_always Q (err e) next f = tt

pub raise_if-Ensures {ℓ κ} :
    {B : Type ℓ} (Q : B → Type κ) (c : Bool) (e : Error) (after : Result B)
    → (c ≡ false → Ensures Q after)
    → Ensures Q (raise_if c e >> after)
raise_if-Ensures Q true e after f = tt
raise_if-Ensures Q false e after f = f refl

pub Ensures-ok {ℓ κ} :
    {A : Type ℓ} (P : A → Type κ) (r : Result A) (a : A) → Ensures P r → r ≡ ok a → P a
Ensures-ok P (ok b) a p e = subst (Ensures P) e p
Ensures-ok P (err x) a p e = absurd (cc)

pub Ensures-all {ℓ κ} : {A : Type ℓ} {P : A → Type κ} (r : Result A) → ((a : A) → P a) → Ensures P r
Ensures-all (ok a) f = f a
Ensures-all (err e) f = tt

pub Ensures-and {ℓ κ κ'} :
    {A : Type ℓ} (P : A → Type κ) (Q : A → Type κ') (r : Result A)
    → Ensures P r
    → Ensures Q r
    → Ensures (λ a. P a × Q a) r
Ensures-and P Q (ok a) p q = (p, q)
Ensures-and P Q (err e) p q = tt

pub weaken-Ensures {ℓ κ κ'} :
    {A : Type ℓ} (P : A → Type κ) (Q : A → Type κ') (r : Result A)
    → ((a : A) → P a → Q a)
    → Ensures P r
    → Ensures Q r
weaken-Ensures P Q (ok a) f p = f a p
weaken-Ensures P Q (err e) f p = tt

pub >>-Ensures {ℓ κ ℓ'} :
    {A : Type ℓ} {B : Type ℓ'} (Q : B → Type κ) (r : Result A) (after : Result B)
    → ((a : A) → Ensures Q after)
    → Ensures Q (r >> after)
>>-Ensures Q (ok a) after f = f a
>>-Ensures Q (err e) after f = tt
