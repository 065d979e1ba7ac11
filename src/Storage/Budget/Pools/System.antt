-- ===== src/Storage/Budget/Pools/System.antt =====
-- `get_or_create_system_pools`: its three turns, and a second call.
use tulip_accounting.Prelude.{ℕ, ◌≡◌, refl, ◌∙◌, arith, Bool, false, ◌&&◌, String, some, ◌==◌}
use tulip_accounting.Prelude.Results.{ok}
use tulip_accounting.Transactions.{Uuid}
use tulip_accounting.Allocation.{PoolType}
use tulip_accounting.Storage.Tables.{find, exists}
use tulip_accounting.Storage.Budget.{Budget, PoolRow, is_pool}
use tulip_accounting.Storage.Budget.Pools.{is_system_pool, SystemPools, get_or_create_system_pools}
use tulip_accounting.Storage.Budget.Pools.Turns.{
  IsFreePool, absent-turned, again, envelopes-turned, found, found-turned, found_in-turned,
  free-turned, headers-turned, kept-turned, rows-turned, turn_ok, turned,
}

module _ (hh : Uuid) (currency : String) (fresh : ℕ → Uuid) (b : Budget) where
  abbrev pub one : PoolRow × Budget
  one = turned hh currency (fresh 0) PoolType.inflow b

  abbrev pub two : PoolRow × Budget
  two = turned hh currency (fresh 1) PoolType.unallocated one.1

  abbrev pub three : PoolRow × Budget
  three = turned hh currency (fresh 2) PoolType.spent two.1

  abbrev pub pools_made : SystemPools
  pools_made = record { inflow = one.0; unallocated = two.0; spent = three.0 }

  pub headers_same : three.1.shadow_headers ≡ b.shadow_headers
  headers_same =
      headers-turned hh currency (fresh 2) PoolType.spent two.1
      ∙ headers-turned hh currency (fresh 1) PoolType.unallocated one.1
      ∙ headers-turned hh currency (fresh 0) PoolType.inflow b

  pub rows_same : three.1.shadow_rows ≡ b.shadow_rows
  rows_same =
      rows-turned hh currency (fresh 2) PoolType.spent two.1
      ∙ rows-turned hh currency (fresh 1) PoolType.unallocated one.1
      ∙ rows-turned hh currency (fresh 0) PoolType.inflow b

  pub envelopes_same : three.1.envelopes ≡ b.envelopes
  envelopes_same =
      envelopes-turned hh currency (fresh 2) PoolType.spent two.1
      ∙ envelopes-turned hh currency (fresh 1) PoolType.unallocated one.1
      ∙ envelopes-turned hh currency (fresh 0) PoolType.inflow b

  pub found_still :
      (p : PoolRow → Bool) (x : PoolRow) → find p b.pools ≡ some x → find p three.1.pools ≡ some x
  found_still p x e = found_in-turned hh currency (fresh 2) PoolType.spent p two.1 x (
      found_in-turned hh currency (fresh 1) PoolType.unallocated p one.1 x
        (found_in-turned hh currency (fresh 0) PoolType.inflow p b x e))

  -- A system pool has none of the identifiers that were neither a system pool's nor drawn.
  pub system_apart :
      (id : Uuid)
      → exists (λ p. p.is_system && is_pool hh id p) b.pools ≡ false
      → (fresh 0 == id) ≡ false
      → (fresh 1 == id) ≡ false
      → (fresh 2 == id) ≡ false
      → exists (λ p. p.is_system && is_pool hh id p) three.1.pools ≡ false
  system_apart id apart e0 e1 e2 =
      let q = λ (p : PoolRow). p.is_system && is_pool hh id p in
      absent-turned hh currency (fresh 2) PoolType.spent q two.1
        (absent-turned hh currency (fresh 1) PoolType.unallocated q one.1
          (absent-turned hh currency (fresh 0) PoolType.inflow q b apart (ground arith))
          (ground arith))
        (ground arith)

  inflow_stays : found hh currency PoolType.inflow three.1 ≡ some one.0
  inflow_stays = kept-turned hh currency (fresh 2) PoolType.spent PoolType.inflow two.1 one.0 (
      kept-turned hh currency (fresh 1) PoolType.unallocated PoolType.inflow one.1 one.0
        (found-turned hh currency (fresh 0) PoolType.inflow b))

  pub unallocated_stays : found hh currency PoolType.unallocated three.1 ≡ some two.0
  unallocated_stays =
      kept-turned hh currency (fresh 2) PoolType.spent PoolType.unallocated two.1 two.0
        (found-turned hh currency (fresh 1) PoolType.unallocated one.1)

  -- Tables with the same pools are left as they are.
  pub again_all :
      (later : ℕ → Uuid) (after : Budget)
      → after.pools ≡ three.1.pools
      → get_or_create_system_pools later hh currency after ≡ ok (pools_made, after)
  unfolding get_or_create_system_pools
  again_all later after same =
      rw
        (
          again hh currency (later 0) PoolType.inflow after one.0 refl (rw same inflow_stays),
          again hh currency (later 1) PoolType.unallocated after two.0 refl
              (rw same unallocated_stays),
          again hh currency (later 2) PoolType.spent after three.0 refl
              (rw same (found-turned hh currency (fresh 2) PoolType.spent two.1)),
        )
        refl

  module _ (f0 : IsFreePool hh (fresh 0) b) (f1 : IsFreePool hh (fresh 1) b)
      (f2 : IsFreePool hh (fresh 2) b) (d01 : (fresh 0 == fresh 1) ≡ false)
      (d02 : (fresh 0 == fresh 2) ≡ false) (d12 : (fresh 1 == fresh 2) ≡ false) where
    pub pools_ok : get_or_create_system_pools fresh hh currency b ≡ ok (pools_made, three.1)
    unfolding get_or_create_system_pools
    pools_ok =
        rw
          (
            turn_ok hh currency (fresh 0) PoolType.inflow b refl f0,
            turn_ok hh currency (fresh 1) PoolType.unallocated one.1 refl
                (free-turned hh currency (fresh 0) (fresh 1) PoolType.inflow b d01 f1),
            turn_ok hh currency (fresh 2) PoolType.spent two.1 refl (
                free-turned hh currency (fresh 1) (fresh 2) PoolType.unallocated one.1 d12
                  (free-turned hh currency (fresh 0) (fresh 2) PoolType.inflow b d02 f2)),
          )
          refl

  -- Where no pool of the household has one of three different new identifiers, the call returns the
  -- system pools of the currency; they stand in the tables that it leaves, and a later call,
  -- whatever identifiers it draws, returns the same pools and changes nothing.
  pub get_or_create_system_pools_lem :
      IsFreePool hh (fresh 0) b
      → IsFreePool hh (fresh 1) b
      → IsFreePool hh (fresh 2) b
      → (fresh 0 == fresh 1) ≡ false
      → (fresh 0 == fresh 2) ≡ false
      → (fresh 1 == fresh 2) ≡ false
      → (s : SystemPools) × (after : Budget) × (get_or_create_system_pools fresh hh currency b
          ≡ ok (s, after))
        × (find (is_system_pool hh PoolType.inflow currency) after.pools ≡ some s.inflow)
        × (find (is_system_pool hh PoolType.unallocated currency) after.pools ≡ some s.unallocated)
        × (find (is_system_pool hh PoolType.spent currency) after.pools ≡ some s.spent)
        × ((later : ℕ → Uuid) → get_or_create_system_pools later hh currency after ≡ ok (s, after))
  get_or_create_system_pools_lem f0 f1 f2 d01 d02 d12 = (
    pools_made,
    three.1,
    pools_ok f0 f1 f2 d01 d02 d12,
    inflow_stays,
    unallocated_stays,
    found-turned hh currency (fresh 2) PoolType.spent two.1,
    λ later. again_all later three.1 refl,
  )
