-- ===== src/Allocation/Laws.antt =====
-- The consistency that the constructors of pools, envelopes, funds and rules establish.
use tulip_accounting.Prelude.{
  ◌≡◌, ◌↔◌, ◌⊎◌, refl, arith, true, false, Option, none, some, str_eq, eq_iff,
}
use tulip_accounting.Prelude.Results.{ok, is_ok}
use tulip_accounting.Decimal.{Decimal, nought, le, not_positive, is_negative}
use tulip_accounting.Currency.{from_code}
use tulip_accounting.Money.{Money}
use tulip_accounting.Allocation.{
  Pool, PoolType, is_system_type, check_pool, RefillRule, RefillStrategy, one, check_strategy,
  check_refill_rule, Envelope, check_envelope, SinkingFund, ContributionStrategy,
  check_sinking_fund,
}

-- A pool is accepted exactly when its currency is known, its name is not empty, its flag agrees with
-- its type, and its visibility is `shared`, or `private` for a pool that is no system pool.
pub check_pool_iff :
    (p : Pool)
    → (check_pool p ≡ ok p) ↔ (
        (is_ok (from_code p.currency) ≡ true)
        × (str_eq p.name "" ≡ false)
        × (p.is_system ≡ is_system_type p.pool_type)
        × ((p.visibility ≡ "shared") ⊎ ((p.visibility ≡ "private") × (p.is_system ≡ false))))
unfolding check_pool
check_pool_iff p = ground (arith, eq_iff p.visibility "shared", eq_iff p.visibility "private")

-- What a rule must hold, by its strategy: a positive amount and no percentage, or a percentage above
-- nought and up to one and no amount.
abbrev pub IsShaped : RefillStrategy → Option Money → Option Decimal → Type 0
IsShaped RefillStrategy.percentage_of_income a p =
    (a ≡ none) × ((d : Decimal) × (p ≡ some d) × (le d nought ≡ false) × (le d one ≡ true))
IsShaped _ a p = (p ≡ none) × ((m : Money) × (a ≡ some m) × (not_positive m.amount ≡ false))

strategy_shape :
    (s : RefillStrategy) (a : Option Money) (p : Option Decimal)
    → check_strategy s a p ≡ ok tt
    → IsShaped s a p
unfolding check_strategy
strategy_shape RefillStrategy.fixed_amount (some m) none h = (refl, (m, refl, ground arith))
strategy_shape RefillStrategy.fill_to_amount (some m) none h = (refl, (m, refl, ground arith))
strategy_shape RefillStrategy.percentage_of_income none (some d) h =
    (refl, (d, refl, ground arith, ground arith))
strategy_shape RefillStrategy.fixed_amount none p h = absurd (cc)
strategy_shape RefillStrategy.fixed_amount (some m) (some d) h = absurd (cc)
strategy_shape RefillStrategy.fill_to_amount none p h = absurd (cc)
strategy_shape RefillStrategy.fill_to_amount (some m) (some d) h = absurd (cc)
strategy_shape RefillStrategy.percentage_of_income a none h = absurd (cc)
strategy_shape RefillStrategy.percentage_of_income (some m) (some d) h = absurd (cc)

-- A rule that its constructor accepted has, by its strategy, a positive amount and no percentage, or a
-- percentage above nought and up to one and no amount.
pub check_refill_rule-IsShaped :
    (r : RefillRule) → check_refill_rule r ≡ ok r → IsShaped r.strategy r.amount r.percentage
unfolding check_refill_rule
check_refill_rule-IsShaped r h = strategy_shape r.strategy r.amount r.percentage (ground arith)

-- An envelope that was accepted stands on a pool of its type, and its amounts agree with the pool:
-- the budget is in the pool's currency and not negative, and so is a rule's currency.
pub check_envelope_sound :
    (e : Envelope)
    → check_envelope e ≡ ok e
    → (e.pool.pool_type ≡ PoolType.envelope)
      × ((m : Money)
          → e.budget_amount ≡ some m
          → (m.currency ≡ e.pool.currency) × (is_negative m.amount ≡ false))
      × ((r : RefillRule) (m : Money)
          → e.refill_rule ≡ some r
          → r.amount ≡ some m
          → m.currency ≡ e.pool.currency)
unfolding check_envelope
check_envelope_sound e h = (
  ground arith,
  λ m b. ground (arith, eq_iff m.currency e.pool.currency),
  λ r m f a. ground (arith, eq_iff m.currency e.pool.currency),
)

-- A sinking fund that was accepted has a positive target in its pool's currency, and a contribution
-- of its own only under the manual strategy, in that currency too.
pub check_sinking_fund_sound :
    (f : SinkingFund)
    → check_sinking_fund f ≡ ok f
    → (f.pool.pool_type ≡ PoolType.sinking_fund)
      × (f.target_amount.currency ≡ f.pool.currency)
      × (not_positive f.target_amount.amount ≡ false)
      × ((m : Money)
          → f.contribution_amount ≡ some m
          → (m.currency ≡ f.pool.currency)
            × (f.contribution_strategy ≡ ContributionStrategy.manual))
unfolding check_sinking_fund
check_sinking_fund_sound f h = (
  ground arith,
  ground (arith, eq_iff f.target_amount.currency f.pool.currency),
  ground arith,
  λ m c. (ground (arith, eq_iff m.currency f.pool.currency), ground arith),
)
