-- ===== src/Storage/Budget/Pools/Turns.antt =====
-- One turn of the loop of `get_or_create_system_pools`: what it returns, and what it leaves alone.
use tulip_accounting.Prelude.{
  ◌≡◌, inl, inr, refl, arith, Bool, true, false, String, eq_iff, Option, none, some, List, [], ◌∷◌,
  ◌++◌, ◌==◌, Bool-cases, Option-cases,
}
use tulip_accounting.Prelude.Results.{ok}
use tulip_accounting.Transactions.{Uuid}
use tulip_accounting.Allocation.{PoolType, is_system_type}
use tulip_accounting.Storage.Tables.{
  find, exists, find-append, find-append_new, exists-append_other,
}
use tulip_accounting.Storage.Budget.{Budget, PoolRow, is_pool}
use tulip_accounting.Storage.Budget.Pools.{
  same_type, is_system_pool, create_pool, insert_pool, get_system_pool, or_create, get_or_create,
  system_pool_name,
}
use Prim.Native.String.{◌++◌ as concat}

not_found {ℓ} : {A : Type ℓ} (p : A → Bool) (xs : List A) → find p xs ≡ none → exists p xs ≡ false
not_found p [] e = refl
not_found p (x ∷ xs) e = elim (Bool-cases (p x)) [
  | inl hit ↦ absurd (let clash = rw hit at e in cc)
  | inr miss ↦ rw miss (not_found p xs (rw miss at e))
]

-- Where no pool of the household has the identifier.
abbrev pub IsFreePool : Uuid → Uuid → Budget → Type 0
IsFreePool hh id b = exists (is_pool hh id) b.pools ≡ false

module _ (hh : Uuid) (currency : String) where
  abbrev pub new_pool : Uuid → PoolType → PoolRow
  new_pool id t = record {
    household_id = hh;
    id = id;
    pool_type = t;
    name = concat (concat (system_pool_name t) " ") currency;
    visibility = "shared";
    currency = currency;
    is_active = true;
    is_system = true;
    created_by_user_id = none;
  }

  -- The pool and the tables after one turn.
  abbrev pub turn : Uuid → PoolType → Budget → Option PoolRow → PoolRow × Budget
  turn id t b none = (new_pool id t, record b { pools = b.pools ++ (new_pool id t ∷ []) })
  turn id t b (some p) = (p, b)

  abbrev pub found : PoolType → Budget → Option PoolRow
  found t b = find (is_system_pool hh t currency) b.pools

  abbrev pub turned : Uuid → PoolType → Budget → PoolRow × Budget
  turned id t b = turn id t b (found t b)

  pub same_self : (t : PoolType) → same_type t t ≡ true
  same_self t = ground arith

  pub turn_ok :
      (id : Uuid) (t : PoolType) (b : Budget)
      → is_system_type t ≡ true
      → IsFreePool hh id b
      → get_or_create hh id t currency b ≡ ok (turned id t b)
  unfolding get_or_create get_system_pool or_create create_pool insert_pool
  turn_ok id t b system free = elim (Option-cases (found t b)) [
    | inl absent ↦
        let unique : exists (is_system_pool hh t currency) b.pools ≡ false =
          not_found (is_system_pool hh t currency) b.pools absent in
        rw (system, absent, free, unique) refl
    | inr (p, present) ↦ rw (system, present) refl
  ]

  -- The pool that a turn returns is the one that stands in its tables, and another turn finds it.
  pub found-turned :
      (id : Uuid) (t : PoolType) (b : Budget) → found t (turned id t b).1 ≡ some (turned id t b).0
  found-turned id t b = elim (Option-cases (found t b)) [
    | inl absent ↦ rw absent (
        find-append_new (is_system_pool hh t currency) b.pools (new_pool id t)
          (not_found (is_system_pool hh t currency) b.pools absent)
          (rw (same_self t) (ground (arith, eq_iff currency currency))))
    | inr (p, present) ↦ rw present present
  ]

  -- A turn loses no pool, and takes no identifier but its own.
  pub kept-turned :
      (id : Uuid) (t s : PoolType) (b : Budget) (p : PoolRow)
      → found s b ≡ some p
      → found s (turned id t b).1 ≡ some p
  kept-turned id t s b p e = elim (Option-cases (found t b)) [
    | inl absent ↦
        rw absent (find-append (is_system_pool hh s currency) b.pools (new_pool id t ∷ []) p e)
    | inr (q, present) ↦ rw present e
  ]

  pub free-turned :
      (id key : Uuid) (t : PoolType) (b : Budget)
      → (id == key) ≡ false
      → IsFreePool hh key b
      → IsFreePool hh key (turned id t b).1
  free-turned id key t b differs free = elim (Option-cases (found t b)) [
    | inl absent ↦ rw absent (
        exists-append_other (is_pool hh key) b.pools (new_pool id t) free
          (let e = differs in ground arith))
    | inr (q, present) ↦ rw present free
  ]

  -- A turn leaves the shadow ledger and the envelopes alone.
  pub headers-turned :
      (id : Uuid) (t : PoolType) (b : Budget) → (turned id t b).1.shadow_headers ≡ b.shadow_headers
  headers-turned id t b = elim (Option-cases (found t b)) [
    | inl absent ↦ rw absent refl
    | inr (q, present) ↦ rw present refl
  ]

  pub rows-turned :
      (id : Uuid) (t : PoolType) (b : Budget) → (turned id t b).1.shadow_rows ≡ b.shadow_rows
  rows-turned id t b = elim (Option-cases (found t b)) [
    | inl absent ↦ rw absent refl
    | inr (q, present) ↦ rw present refl
  ]

  pub envelopes-turned :
      (id : Uuid) (t : PoolType) (b : Budget) → (turned id t b).1.envelopes ≡ b.envelopes
  envelopes-turned id t b = elim (Option-cases (found t b)) [
    | inl absent ↦ rw absent refl
    | inr (q, present) ↦ rw present refl
  ]

  -- What is found among pools is still found, and what is not there is not brought.
  pub found_in-turned :
      (id : Uuid) (t : PoolType) (p : PoolRow → Bool) (b : Budget) (x : PoolRow)
      → find p b.pools ≡ some x
      → find p (turned id t b).1.pools ≡ some x
  found_in-turned id t p b x e = elim (Option-cases (found t b)) [
    | inl absent ↦ rw absent (find-append p b.pools (new_pool id t ∷ []) x e)
    | inr (q, present) ↦ rw present e
  ]

  pub absent-turned :
      (id : Uuid) (t : PoolType) (p : PoolRow → Bool) (b : Budget)
      → exists p b.pools ≡ false
      → p (new_pool id t) ≡ false
      → exists p (turned id t b).1.pools ≡ false
  absent-turned id t p b none_before other = elim (Option-cases (found t b)) [
    | inl absent ↦ rw absent (exists-append_other p b.pools (new_pool id t) none_before other)
    | inr (q, present) ↦ rw present none_before
  ]

  pub again :
      (key : Uuid) (t : PoolType) (b : Budget) (p : PoolRow)
      → is_system_type t ≡ true
      → found t b ≡ some p
      → get_or_create hh key t currency b ≡ ok (p, b)
  unfolding get_or_create get_system_pool or_create
  again key t b p system e = rw (system, e) refl
