-- ===== src/Allocation/Shadow/Post.antt =====
-- `post_shadow_transaction`: when a shadow transaction is posted, and that nothing else changes.
use tulip_accounting.Prelude.{
  ◌≡◌, ◌↔◌, ◌∙◌, ap, ◌++◌, none, refl, arith, true, eq_iff, ◌==◌, ◌&&◌, some, List, [], ◌∷◌, All,
  Bool-cases, Option-cases, inl, inr,
}
use mathlib.Core.Option.{some-injective}
use tulip_accounting.Prelude.Results.{Error, ok, err, >>-eq-ok}
use tulip_accounting.Transactions.{Uuid}
use tulip_accounting.Allocation.{Pool}
use tulip_accounting.Allocation.Shadow.{
  ShadowPosting, ShadowTransaction, ShadowTxStatus, shadow_is_balanced, check_shadow_transaction,
  find_pool, check_leg, check_legs, as_shadow_posted, post_shadow_transaction,
}

-- A pool of the household with the identifier.
abbrev pub IsNamed : Uuid → Uuid → Pool → Type 0
IsNamed household id p = (p.household_id ≡ household) × (p.id ≡ id)

-- The last pool of the household with the posting's identifier is active and in its currency.
abbrev pub IsLegOk : Uuid → List Pool → ShadowPosting → Type 0
IsLegOk household pools posting =
    (before : List Pool) × (p : Pool) × (after : List Pool) × (pools ≡ before ++ (p ∷ after))
    × IsNamed household posting.pool_id p
    × All (λ q. ¬ IsNamed household posting.pool_id q) after
    × (p.is_active ≡ true)
    × (p.currency ≡ posting.amount.currency)

not_found :
    (household id : Uuid) (pools : List Pool)
    → All (λ q. ¬ IsNamed household id q) pools
    → find_pool household id pools ≡ none
unfolding find_pool
not_found household id [] absent = refl
not_found household id (q ∷ pools) (other, absent) =
    rw (not_found household id pools absent)
      (elim (Bool-cases (q.household_id == household && q.id == id)) [
        | inl fits ↦ absurd (other (ground arith, ground arith))
        | inr fails ↦ rw fails refl
      ])

none-IsNamed :
    (household id : Uuid) (pools : List Pool)
    → find_pool household id pools ≡ none
    → All (λ q. ¬ IsNamed household id q) pools
unfolding find_pool
none-IsNamed household id [] e = tt
none-IsNamed household id (q ∷ pools) e = elim (Option-cases (find_pool household id pools)) [
  | inr (r, found) ↦ absurd (let no = rw found at e in cc)
  | inl absent ↦
      let own = rw absent at e in
      (
        λ (h, i). absurd (
            let fits : q.household_id == household && q.id == id ≡ true = ground arith in
            let no = rw fits at own in cc),
        none-IsNamed household id pools absent,
      )
]

-- The pool under a key is the last that has it.
last_found :
    (household id : Uuid) (before : List Pool) (p : Pool) (after : List Pool)
    → IsNamed household id p
    → All (λ q. ¬ IsNamed household id q) after
    → find_pool household id (before ++ (p ∷ after)) ≡ some p
unfolding find_pool
last_found household id [] p after (h, i) absent =
    let fits : p.household_id == household && p.id == id ≡ true = ground arith in
    rw (not_found household id after absent, fits) refl
last_found household id (q ∷ before) p after named absent =
    rw (last_found household id before p after named absent) refl

found_last :
    (household id : Uuid) (pools : List Pool) {p : Pool}
    → find_pool household id pools ≡ some p
    → (before : List Pool) × (after : List Pool) × (pools ≡ before ++ (p ∷ after))
      × IsNamed household id p
      × All (λ q. ¬ IsNamed household id q) after
unfolding find_pool
found_last household id [] h = absurd (cc)
found_last household id (q ∷ pools) {p} h = elim (Option-cases (find_pool household id pools)) [
  | inr (r, e) ↦
      let same : r ≡ p = some-injective r p (rw e at h) in
      let (before, after, cut, named, absent) =
        found_last household id pools {p = p} (e ∙ ap (λ x. some x) same) in
      (q ∷ before, after, ap (λ ps. q ∷ ps) cut, named, absent)
  | inl e ↦
      let rest = rw e at h in
      elim (Bool-cases (q.household_id == household && q.id == id)) [
        | inl fits ↦
            let same : q ≡ p = some-injective q p (rw fits at rest) in
            (
              [],
              pools,
              ap (λ x. x ∷ pools) same,
              rw (← same) (ground arith, ground arith),
              none-IsNamed household id pools e,
            )
        | inr fails ↦ absurd (let no_pool = rw fails at rest in cc)
      ]
]

check_leg_iff :
    (household : Uuid) (pools : List Pool) (posting : ShadowPosting)
    → (check_leg (find_pool household posting.pool_id pools) posting ≡ ok tt)
      ↔ IsLegOk household pools posting
unfolding check_leg
check_leg_iff household pools posting = (
  λ h. elim (Option-cases (find_pool household posting.pool_id pools)) [
    | inl e ↦ absurd (let no = rw e at h in cc)
    | inr (p, e) ↦
        let (before, after, cut, named, absent) = found_last household posting.pool_id pools e in
        let passed = rw e at h in
        (
          before,
          p,
          after,
          cut,
          named,
          absent,
          ground arith,
          ground (arith, eq_iff p.currency posting.amount.currency),
        )
  ],
  λ (before, p, after, cut, named, absent, active, same).
      rw (cut, last_found household posting.pool_id before p after named absent)
        (ground (arith, eq_iff p.currency posting.amount.currency)),
)

check_legs_iff :
    (household : Uuid) (pools : List Pool) (ps : List ShadowPosting)
    → (check_legs household pools ps ≡ ok tt) ↔ All (IsLegOk household pools) ps
unfolding check_legs
check_legs_iff household pools [] = (λ h. tt, λ h. refl)
check_legs_iff household pools (p ∷ ps) =
    let one = check_leg_iff household pools p in
    let more = check_legs_iff household pools ps in
    (
      λ h.
          let (u, first, rest) =
            >>-eq-ok (check_leg (find_pool household p.pool_id pools) p)
              (check_legs household pools ps) h in
          (one.0 first, more.0 rest),
      λ h. rw (one.1 h.0) (more.1 h.1),
    )

checked_posted :
    (tx : ShadowTransaction)
    → check_shadow_transaction tx ≡ ok tx
    → shadow_is_balanced tx ≡ true
    → check_shadow_transaction (as_shadow_posted tx) ≡ ok (as_shadow_posted tx)
unfolding check_shadow_transaction shadow_is_balanced
checked_posted tx v b = ground arith

-- A pending shadow transaction that was constructed is posted exactly when, for each posting, the
-- last pool listed of its household with the posting's pool identifier is there, active and in
-- the posting's currency, and the postings balance; only its status changes then.
pub post_shadow_transaction_iff :
    (tx : ShadowTransaction) (pools : List Pool)
    → tx.status ≡ ShadowTxStatus.pending
    → check_shadow_transaction tx ≡ ok tx
    → (post_shadow_transaction tx pools ≡ ok (as_shadow_posted tx))
      ↔ (All (IsLegOk tx.household_id pools) tx.postings × (shadow_is_balanced tx ≡ true))
unfolding post_shadow_transaction
post_shadow_transaction_iff tx pools s v =
    let legs = check_legs_iff tx.household_id pools tx.postings in
    (
      λ h. (legs.0 (ground arith), ground arith),
      λ h. let passed = legs.1 h.0 in let marked = checked_posted tx v h.1 in ground arith,
    )

-- A voided shadow transaction is never posted.
pub post_shadow_transaction_voided :
    (tx : ShadowTransaction) (pools : List Pool)
    → tx.status ≡ ShadowTxStatus.voided
    → post_shadow_transaction tx pools ≡ err Error.voided_shadow
unfolding post_shadow_transaction
post_shadow_transaction_voided tx pools s = ground arith

-- What a posting returned is posted, balances if it was constructed, and is returned again by a
-- posting against any pools.
pub post_shadow_transaction_idem :
    (tx : ShadowTransaction) (pools later : List Pool) {t : ShadowTransaction}
    → check_shadow_transaction tx ≡ ok tx
    → post_shadow_transaction tx pools ≡ ok t
    → (t.status ≡ ShadowTxStatus.posted)
      × (shadow_is_balanced t ≡ true)
      × (post_shadow_transaction t later ≡ ok t)
unfolding post_shadow_transaction check_shadow_transaction
post_shadow_transaction_idem tx pools later v h = (ground arith, ground arith, ground arith)
