-- ===== src/Allocation/Shadow/Pairing.antt =====
-- `derive_paired_shadow_tx`: which shadow transaction a main transaction gets, and when it raises.
use Prim.Native.String.{◌++◌ as concat}
use tulip_accounting.Prelude.{
  ℕ, suc, ◌+◌, ◌≤◌, ◌≡◌, refl, ap, arith, Bool, true, not, String, str_eq, Option, none, some, List,
  [], ◌∷◌, ◌++◌, length, length-append, all_of, if◌then◌else◌, Bool-cases, Option-cases, inl, inr,
}
use tulip_accounting.Prelude.Int.{ℤ, negsuc, -ℤ◌, ◌*ℤ◌, -ℤ_parts}
use tulip_accounting.Prelude.Results.{Error, Result, ok, err, is_ok, ◌>>=◌}
use tulip_accounting.Decimal.{Decimal, nought, add, neg, mul, is_negative}
use tulip_accounting.Decimal.Arithmetic.{
  ext, add_comm, add_assoc, nought-add, neg-add, neg_nought, add-neg_self, add_zeros,
}
use tulip_accounting.Currency.{from_code}
use tulip_accounting.Money.{IsMoney}
use tulip_accounting.Money.Laws.{money_ok}
use tulip_accounting.Account.{AccountType}
use tulip_accounting.Transactions.{Uuid, Posting, Transaction}
use tulip_accounting.Transactions.Balance.{sum_in, sum_in-append, tally_iff}
use tulip_accounting.Allocation.Shadow
use tulip_accounting.Allocation.Shadow.{
  ShadowPosting, ShadowTransaction, ShadowTxStatus, ShadowTxReason, shadow_amounts,
  shadow_is_balanced, check_shadow_transaction, pool_tagged, is_pairable, negated_sign,
}

-- The sum of the tagged postings' amounts.
abbrev pub total : List (Uuid × Posting) → Decimal
total [] = nought
total ((pool, p) ∷ ps) = add p.amount.amount (total ps)

mul_minus_one : (d : Decimal) → mul (record { coeff = negsuc 0; places = 0 }) d ≡ neg d
unfolding mul neg ◌*ℤ◌
mul_minus_one d =
    ext (mul (record { coeff = negsuc 0; places = 0 }) d) (neg d) (omega arith) (times d.coeff)
  where
    times : (z : ℤ) → negsuc 0 *ℤ z ≡ -ℤ◌ z
    times z = ground (arith, -ℤ_parts z)

shadow_amounts-append :
    (xs ys : List ShadowPosting)
    → shadow_amounts (xs ++ ys) ≡ shadow_amounts xs ++ shadow_amounts ys
shadow_amounts-append [] ys = refl
shadow_amounts-append (x ∷ xs) ys = rw (shadow_amounts-append xs ys) refl

module _ (fresh : ℕ → Uuid) where
  -- The legs of tagged postings, each with its amount negated.
  abbrev pub legs : ℕ → String → List (Uuid × Posting) → List ShadowPosting
  legs k c [] = []
  legs k c ((pool, p) ∷ ps) =
      record {
        id = fresh k;
        pool_id = pool;
        amount = record { amount = neg p.amount.amount; currency = c };
        memo = none;
      }
      ∷ legs (k + 1) c ps

  sum_in-legs :
      (k : ℕ) (j c : String) (ps : List (Uuid × Posting))
      → sum_in j (shadow_amounts (legs k c ps)) ≡ (if str_eq c j then neg (total ps) else nought)
  sum_in-legs k j c [] = ground (arith, neg_nought)
  sum_in-legs k j c ((pool, p) ∷ ps) =
      ground (arith, sum_in-legs (k + 1) j c ps, neg-add p.amount.amount (total ps))

  length-legs : (k : ℕ) (c : String) (ps : List (Uuid × Posting)) → length (legs k c ps) ≡ length ps
  length-legs k c [] = refl
  length-legs k c (p ∷ ps) = ap suc (length-legs (k + 1) c ps)

  -- The leg that absorbs the effect in the household's pool for what is spent.
  abbrev pub spent_leg : String → List (Uuid × Posting) → Uuid → ShadowPosting
  spent_leg c tagged spent = record {
    id = fresh (length tagged);
    pool_id = spent;
    amount = record { amount = neg (neg (total tagged)); currency = c };
    memo = none;
  }

  -- The shadow transaction that pairs a main transaction.
  abbrev pub paired : Transaction → String → List (Uuid × Posting) → Uuid → ShadowTransaction
  paired main c tagged spent = record {
    id = fresh (length tagged + 1);
    household_id = main.household_id;
    date = main.date;
    description = concat main.description " (envelope effects)";
    reason = ShadowTxReason.spend;
    postings = legs 0 c tagged ++ (spent_leg c tagged spent ∷ []);
    status = ShadowTxStatus.posted;
    paired_main_tx_id = some main.id;
    created_by_user_id = main.created_by_user_id;
  }

  -- The shadow transaction that pairs tagged postings is balanced, whatever their amounts.
  pub paired-is_balanced :
      (main : Transaction) (c : String) (tagged : List (Uuid × Posting)) (spent : Uuid)
      → shadow_is_balanced (paired main c tagged spent) ≡ true
  unfolding shadow_is_balanced
  paired-is_balanced main c tagged spent =
      let own = legs 0 c tagged in
      let last : List ShadowPosting = spent_leg c tagged spent ∷ [] in
      let effect = neg (total tagged) in
      (tally_iff (shadow_amounts (own ++ last))).1 λ j.
        rw
          (
            shadow_amounts-append own last,
            sum_in-append j (shadow_amounts own) (shadow_amounts last),
            sum_in-legs 0 j c tagged,
          )
          (elim (Bool-cases (str_eq c j)) [
            | inl same ↦
                rw (same, add_comm (neg effect) nought, nought-add (neg effect))
                  (add-neg_self effect)
            | inr other ↦ rw other (add_zeros nought nought refl refl)
          ])

  paired_checked :
      (main : Transaction) (c : String) (tagged : List (Uuid × Posting)) (spent : Uuid)
      → 1 ≤ length tagged
      → check_shadow_transaction (paired main c tagged spent) ≡ ok (paired main c tagged spent)
  unfolding check_shadow_transaction
  paired_checked main c tagged spent h =
      let b = paired-is_balanced main c tagged spent in
      let n = length-legs 0 c tagged in
      let m = length-append (legs 0 c tagged) (spent_leg c tagged spent ∷ []) in ground arith

module _ (fresh : ℕ → Uuid) (account_type : Uuid → Option AccountType) where
  abbrev pub are_pairable : List (Uuid × Posting) → Bool
  are_pairable = all_of (λ e. is_pairable (account_type e.1.account_id))

  sign_ok :
      (t : Option AccountType)
      → is_pairable t ≡ true
      → negated_sign t ≡ ok (record { coeff = negsuc 0; places = 0 })
  sign_ok t h = ground arith

  shadow_legs_ok :
      (k : ℕ) (c : String) (ps : List (Uuid × Posting)) (net : Decimal)
      → is_ok (from_code c) ≡ true
      → are_pairable ps ≡ true
      → Shadow.shadow_legs fresh account_type k c ps net
        ≡ ok (legs fresh k c ps, add net (neg (total ps)))
  unfolding Shadow.shadow_legs
  shadow_legs_ok k c [] net h a = rw (neg_nought, add_comm net nought, nought-add net) refl
  shadow_legs_ok k c ((pool, p) ∷ ps) net h a =
      let amount = neg p.amount.amount in
      let first : is_pairable (account_type p.account_id) ≡ true = ground arith in
      let others : are_pairable ps ≡ true = ground arith in
      rw
        (
          sign_ok (account_type p.account_id) first,
          mul_minus_one p.amount.amount,
          money_ok amount c h,
          shadow_legs_ok (k + 1) c ps (add net amount) h others,
          neg-add p.amount.amount (total ps),
          add_assoc net amount (neg (total ps)),
        )
        refl

  abbrev pub one_currency : String → List (Uuid × Posting) → Bool
  one_currency c = all_of (λ e. str_eq e.1.amount.currency c)

  -- What is to come of tagged postings, the first of them in currency `c`.
  abbrev pub PairedOutcome :
      Transaction → String → List (Uuid × Posting) → Option Uuid → Result ShadowTransaction
  PairedOutcome main c tagged spent =
      if not (one_currency c tagged)
      then err Error.multi_currency_tagging
      else if not (are_pairable tagged)
      then err Error.invalid_account_type
      else if not (is_negative (neg (total tagged)))
      then err Error.refund_shaped
      else absorb spent
    where
      absorb : Option Uuid → Result ShadowTransaction
      absorb none = err Error.no_spent_pool
      absorb (some pool) = ok (paired fresh main c tagged pool)

  pair_tagged_lem :
      (spent_pool : String → Option Uuid) (main : Transaction) (first : Posting)
      (tagged : List (Uuid × Posting))
      → 1 ≤ length tagged
      → IsMoney first.amount
      → Shadow.pair_tagged fresh account_type spent_pool main first tagged
        ≡ PairedOutcome main first.amount.currency tagged (spent_pool first.amount.currency)
  unfolding Shadow.pair_tagged
  pair_tagged_lem spent_pool main first tagged h k =
      let c = first.amount.currency in
      let effect = neg (total tagged) in
      elim (Bool-cases (one_currency c tagged)) [
        | inr many ↦ rw many refl
        | inl one ↦ elim (Bool-cases (are_pairable tagged)) [
          | inr other ↦ rw (one, other) refl
          | inl expense ↦
              rw (one, expense, shadow_legs_ok 0 c tagged nought k expense, nought-add effect)
                (elim (Bool-cases (is_negative effect)) [
                  | inr refund ↦ rw refund refl
                  | inl spending ↦ elim (Option-cases (spent_pool c)) [
                    | inl missing ↦ rw (spending, missing) refl
                    | inr (pool, found) ↦
                        rw (spending, found, money_ok (neg effect) c k)
                          (paired_checked fresh main c tagged pool h)
                  ]
                ])
        ]
      ]

  -- A transaction with no tagged posting has no shadow.
  pub derive_paired_none :
      (spent_pool : String → Option Uuid) (main : Transaction)
      → pool_tagged main.postings ≡ []
      → Shadow.derive_paired_shadow_tx fresh account_type spent_pool main ≡ ok none
  unfolding Shadow.derive_paired_shadow_tx
  derive_paired_none spent_pool main e = rw e refl

  -- With tagged postings, the first of them in a known currency, the outcome is decided by four
  -- tests in this order: one currency, accounts of expense only, a negative sum of the negated
  -- amounts, and a pool for what is spent. Past them the shadow transaction is always built,
  -- with one leg for each tagged posting and one that absorbs their sum: no other error, of the
  -- balance or of an amount, can arise.
  pub derive_paired_lem :
      (spent_pool : String → Option Uuid) (main : Transaction) (pool : Uuid) (p : Posting)
      (ps : List (Uuid × Posting))
      → pool_tagged main.postings ≡ (pool, p) ∷ ps
      → IsMoney p.amount
      → Shadow.derive_paired_shadow_tx fresh account_type spent_pool main ≡ (
          PairedOutcome main p.amount.currency ((pool, p) ∷ ps) (spent_pool p.amount.currency)
          >>= λ tx. ok (some tx))
  unfolding Shadow.derive_paired_shadow_tx Shadow.pair_all
  derive_paired_lem spent_pool main pool p ps e k =
      let tagged : List (Uuid × Posting) = (pool, p) ∷ ps in
      rw (e, pair_tagged_lem spent_pool main p tagged (omega arith) k) refl
