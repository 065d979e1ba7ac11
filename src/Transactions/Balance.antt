-- ===== src/Transactions/Balance.antt =====
-- What the loop over postings computes: for each currency, the sum of the amounts in it.
use tulip_accounting.Prelude.{
  ◌≡◌, ◌↔◌, inl, inr, refl, sym, ◌∙◌, arith, String, str_eq, eq_iff, true, List, [], ◌∷◌, ◌++◌,
  all_of, if◌then◌else◌, Bool-cases,
}
use tulip_accounting.Prelude.Int.{pos}
use tulip_accounting.Prelude.Dict.{Dict, lookup, lookup-insert, IsKeyed, insert-IsKeyed}
use tulip_accounting.Decimal.{Decimal, nought, add, neg, is_zero}
use tulip_accounting.Decimal.Arithmetic.{
  add_comm, add_assoc, nought-add, neg-add, neg_nought, is_zero_iff,
}
use tulip_accounting.Money.{Money}
use tulip_accounting.Transactions.{
  Transaction, or_nought, bump, tally, amounts, entry_is_zero, balance_per_currency, is_balanced,
}

-- The sum of the amounts in one currency, by plain recursion.
abbrev pub sum_in : String → List Money → Decimal
sum_in c [] = nought
sum_in c (m ∷ ms) = if str_eq m.currency c then add m.amount (sum_in c ms) else sum_in c ms

-- What a dict of sums holds for a currency, nothing being nought.
abbrev pub net : String → Dict Decimal → Decimal
net c sums = or_nought (lookup c sums)

net-bump :
    (c j : String) (x : Decimal) (sums : Dict Decimal)
    → net j (bump c x sums) ≡ (if str_eq c j then add (net j sums) x else net j sums)
net-bump c j x sums = ground (arith, eq_iff c j, lookup-insert c j (add (net c sums) x) sums)

-- Every currency's sum grows by just the amounts in it.
pub net-tally :
    (c : String) (ms : List Money) (sums : Dict Decimal)
    → net c (tally ms sums) ≡ add (net c sums) (sum_in c ms)
unfolding tally
net-tally c [] sums = sym (nought-add (net c sums)) ∙ add_comm nought (net c sums)
net-tally c (m ∷ ms) sums =
    net-tally c ms (bump m.currency m.amount sums)
    ∙ rw (net-bump m.currency c m.amount sums) (elim (Bool-cases (str_eq m.currency c)) [
      | inl same ↦ rw same (add_assoc (net c sums) m.amount (sum_in c ms))
      | inr other ↦ rw other refl
    ])

pub tally-IsKeyed : (ms : List Money) (sums : Dict Decimal) → IsKeyed sums → IsKeyed (tally ms sums)
unfolding tally
tally-IsKeyed [] sums h = h
tally-IsKeyed (m ∷ ms) sums h =
    tally-IsKeyed ms (bump m.currency m.amount sums)
      (insert-IsKeyed m.currency (add (net m.currency sums) m.amount) sums h)

-- Where all entries are zero, so is what the dict holds for any currency.
net_zero :
    (c : String) (sums : Dict Decimal)
    → all_of entry_is_zero sums ≡ true
    → (net c sums).coeff ≡ pos 0
net_zero c [] h = refl
net_zero c ((k, d) ∷ sums) h = ground (arith, is_zero_iff d, net_zero c sums)

zero_net :
    (sums : Dict Decimal)
    → IsKeyed sums
    → ((c : String) → (net c sums).coeff ≡ pos 0)
    → all_of entry_is_zero sums ≡ true
zero_net [] k h = refl
zero_net ((j, d) ∷ sums) k h =
    let first : is_zero d ≡ true = (is_zero_iff d).1 (ground (arith, h j, eq_iff j j)) in
    rw first (
      zero_net sums k.1 λ c. elim (Bool-cases (str_eq j c)) [
        | inl same ↦ ground (arith, eq_iff j c)
        | inr other ↦ ground (arith, h c)
      ])

-- Every entry of the dict is zero exactly when the amounts sum to zero in every currency.
pub tally_iff :
    (ms : List Money)
    → (all_of entry_is_zero (tally ms []) ≡ true) ↔ ((c : String) → (sum_in c ms).coeff ≡ pos 0)
tally_iff ms =
    let at_c = λ (c : String). net-tally c ms [] ∙ nought-add (sum_in c ms) in
    (
      λ h c. rw (← at_c c) (net_zero c (tally ms []) h),
      λ h. zero_net (tally ms []) (tally-IsKeyed ms [] tt) (λ c. rw (at_c c) (h c)),
    )

pub sum_in-append :
    (c : String) (xs ys : List Money) → sum_in c (xs ++ ys) ≡ add (sum_in c xs) (sum_in c ys)
sum_in-append c [] ys = sym (nought-add (sum_in c ys))
sum_in-append c (m ∷ xs) ys =
    ground (arith, sum_in-append c xs ys, add_assoc m.amount (sum_in c xs) (sum_in c ys))

-- Every amount negated.
abbrev pub negated : List Money → List Money
negated [] = []
negated (m ∷ ms) = record { amount = neg m.amount; currency = m.currency } ∷ negated ms

pub sum_in-negated : (c : String) (ms : List Money) → sum_in c (negated ms) ≡ neg (sum_in c ms)
sum_in-negated c [] = sym neg_nought
sum_in-negated c (m ∷ ms) = ground (arith, sum_in-negated c ms, neg-add m.amount (sum_in c ms))

-- A transaction is balanced exactly when its postings sum to zero in every currency.
pub is_balanced_iff :
    (tx : Transaction)
    → (is_balanced tx ≡ true) ↔ ((c : String) → (sum_in c (amounts tx.postings)).coeff ≡ pos 0)
unfolding is_balanced
is_balanced_iff tx = tally_iff (amounts tx.postings)

-- The balance that is reported for a currency is the sum of the postings' amounts in it.
pub balance_per_currency_lem :
    (tx : Transaction) (c : String)
    → net c (balance_per_currency tx) ≡ sum_in c (amounts tx.postings)
unfolding balance_per_currency
balance_per_currency_lem tx c =
    net-tally c (amounts tx.postings) [] ∙ nought-add (sum_in c (amounts tx.postings))
