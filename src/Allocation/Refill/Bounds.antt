-- ===== src/Allocation/Refill/Bounds.antt =====
-- How much `evaluate_refill_rule` gives, for a rule that its constructor accepted.
use tulip_accounting.Prelude.{
  ◌≡◌, ◌⊎◌, inl, inr, refl, arith, true, false, Option, none, some, str_eq, eq_iff, subst,
  if◌then◌else◌, Bool-cases,
}
use tulip_accounting.Prelude.Results.{Error, Result, ok, err}
use tulip_accounting.Decimal.{Decimal, nought, add, sub, mul, le, eq, not_positive, is_negative}
use tulip_accounting.Decimal.Order.{not_positive-sub, eq-add-sub, mul-le, nought-le}
use tulip_accounting.Money.{Money, IsMoney, zero_money}
use tulip_accounting.Money.Laws.{money_ok}
use tulip_accounting.Allocation.{RefillRule, RefillStrategy, check_refill_rule}
use tulip_accounting.Allocation.Laws.{IsShaped, check_refill_rule-IsShaped}
use tulip_accounting.Allocation.Refill.{
  positive_or_zero, from_inflow, refill_by, evaluate_refill_rule,
}

abbrev pub positive_part : Decimal → Decimal
positive_part d = if not_positive d then nought else d

positive_or_zero_ok :
    (d : Decimal) (b : Money)
    → IsMoney b
    → positive_or_zero d b ≡ ok (record { amount = positive_part d; currency = b.currency })
unfolding zero_money
positive_or_zero_ok d b k = elim (Bool-cases (not_positive d)) [
  | inl low ↦ rw low (money_ok nought b.currency k)
  | inr high ↦ rw high (money_ok d b.currency k)
]

positive_part_nonneg : (d : Decimal) → is_negative (positive_part d) ≡ false
positive_part_nonneg d = ground arith

-- Topping up an envelope of a known currency to a target in that currency gives just what is
-- missing: with it the balance has the value of the target, and a balance at or above the target
-- gets nothing.
pub evaluate-fill :
    (rule : RefillRule) (target balance : Money) (inflow : Option Money)
    → rule.strategy ≡ RefillStrategy.fill_to_amount
    → rule.amount ≡ some target
    → target.currency ≡ balance.currency
    → IsMoney balance
    → (m : Money) × (evaluate_refill_rule rule balance inflow ≡ ok m)
      × (m.currency ≡ balance.currency)
      × (le target.amount balance.amount ≡ false
          → eq (add balance.amount m.amount) target.amount ≡ true)
      × (le target.amount balance.amount ≡ true → m.amount ≡ nought)
unfolding evaluate_refill_rule
evaluate-fill rule target balance inflow s a c k =
    let gap = sub target.amount balance.amount in
    let gives = positive_or_zero_ok gap balance k in
    let gap_sign = not_positive-sub target.amount balance.amount in
    (
      record { amount = positive_part gap; currency = balance.currency },
      rw (s, a, (eq_iff target.currency balance.currency).1 c, gives) refl,
      refl,
      λ below. rw (gap_sign, below) (eq-add-sub target.amount balance.amount),
      λ above. rw (gap_sign, above) refl,
    )

-- For a rule that its constructor accepted, a share of a positive inflow in the envelope's known
-- currency is never more than the inflow, and never negative.
pub evaluate-share :
    (rule : RefillRule) (balance inflow : Money)
    → check_refill_rule rule ≡ ok rule
    → rule.strategy ≡ RefillStrategy.percentage_of_income
    → not_positive inflow.amount ≡ false
    → inflow.currency ≡ balance.currency
    → IsMoney balance
    → (m : Money) × (evaluate_refill_rule rule balance (some inflow) ≡ ok m)
      × (m.currency ≡ balance.currency)
      × (is_negative m.amount ≡ false)
      × (le m.amount inflow.amount ≡ true)
unfolding evaluate_refill_rule
evaluate-share rule balance inflow v s positive c k =
    let shape : IsShaped RefillStrategy.percentage_of_income rule.amount rule.percentage =
      subst (λ t. IsShaped t rule.amount rule.percentage) s (check_refill_rule-IsShaped rule v) in
    let (p, e, low, high) = shape.1 in
    let part = mul inflow.amount p in
    let (sign, most) = mul-le inflow.amount p positive low high in
    (
      record { amount = positive_part part; currency = balance.currency },
      rw
          (
            s,
            e,
            positive,
            (eq_iff inflow.currency balance.currency).1 c,
            positive_or_zero_ok part balance k,
          )
          refl,
      refl,
      positive_part_nonneg part,
      elim (Bool-cases (not_positive part)) [
        | inl none_left ↦ rw none_left (nought-le inflow.amount positive)
        | inr some_left ↦ rw some_left most
      ],
    )

-- The refill is a value in the envelope's currency that is not negative, or the currency error.
abbrev pub IsRefill : Money → Result Money → Type 0
IsRefill balance r =
    ((m : Money) × (r ≡ ok m) × (is_negative m.amount ≡ false) × (m.currency ≡ balance.currency))
    ⊎ (r ≡ err Error.currency_mismatch)

zero_money-IsRefill : (b : Money) → IsMoney b → IsRefill b (zero_money b.currency)
unfolding zero_money
zero_money-IsRefill b k =
    inl
      (record { amount = nought; currency = b.currency }, money_ok nought b.currency k, refl, refl)

positive_or_zero-IsRefill :
    (d : Decimal) (b : Money) → IsMoney b → IsRefill b (positive_or_zero d b)
positive_or_zero-IsRefill d b k = inl (
  record { amount = positive_part d; currency = b.currency },
  positive_or_zero_ok d b k,
  positive_part_nonneg d,
  refl,
)

from_inflow-IsRefill :
    (p : Decimal) (b : Money) (inflow : Option Money)
    → IsMoney b
    → IsRefill b (from_inflow p b inflow)
unfolding from_inflow
from_inflow-IsRefill p b none k = zero_money-IsRefill b k
from_inflow-IsRefill p b (some i) k = elim (Bool-cases (not_positive i.amount)) [
  | inl low ↦ rw low (zero_money-IsRefill b k)
  | inr high ↦ rw high (elim (Bool-cases (str_eq i.currency b.currency)) [
    | inl same ↦ rw same (positive_or_zero-IsRefill (mul i.amount p) b k)
    | inr other ↦ rw other (inr refl)
  ])
]

refill_by-IsRefill :
    (s : RefillStrategy) (rule : RefillRule) (b : Money) (inflow : Option Money)
    → IsShaped s rule.amount rule.percentage
    → IsMoney b
    → IsRefill b (refill_by s rule b inflow)
unfolding refill_by
refill_by-IsRefill RefillStrategy.fixed_amount rule b inflow (_, (m, e, h)) k =
    rw e (elim (Bool-cases (str_eq m.currency b.currency)) [
      | inl same ↦ rw same (inl (m, refl, ground arith, (eq_iff m.currency b.currency).0 same))
      | inr other ↦ rw other (inr refl)
    ])
refill_by-IsRefill RefillStrategy.fill_to_amount rule b inflow (_, (m, e, h)) k =
    rw e (elim (Bool-cases (str_eq m.currency b.currency)) [
      | inl same ↦ rw same (positive_or_zero-IsRefill (sub m.amount b.amount) b k)
      | inr other ↦ rw other (inr refl)
    ])
refill_by-IsRefill RefillStrategy.percentage_of_income rule b inflow (_, (p, e, low, high)) k =
    rw e (from_inflow-IsRefill p b inflow k)

-- With a rule that its constructor accepted and an envelope of a known currency, every refill is
-- either a value in the envelope's currency that is not negative, or the error for a currency
-- that is not the envelope's.
pub evaluate-IsRefill :
    (rule : RefillRule) (balance : Money) (inflow : Option Money)
    → check_refill_rule rule ≡ ok rule
    → IsMoney balance
    → IsRefill balance (evaluate_refill_rule rule balance inflow)
unfolding evaluate_refill_rule
evaluate-IsRefill rule balance inflow v k =
    refill_by-IsRefill rule.strategy rule balance inflow (check_refill_rule-IsShaped rule v) k

-- The very amount of a top-up: the gap, if it is positive.
pub evaluate-fill_gap :
    (rule : RefillRule) (target balance : Money) (inflow : Option Money)
    → rule.strategy ≡ RefillStrategy.fill_to_amount
    → rule.amount ≡ some target
    → target.currency ≡ balance.currency
    → IsMoney balance
    → evaluate_refill_rule rule balance inflow
      ≡ ok (record {
        amount = positive_part (sub target.amount balance.amount);
        currency = balance.currency;
      })
unfolding evaluate_refill_rule
evaluate-fill_gap rule target balance inflow s a c k =
    rw
      (
        s,
        a,
        (eq_iff target.currency balance.currency).1 c,
        positive_or_zero_ok (sub target.amount balance.amount) balance k,
      )
      refl
