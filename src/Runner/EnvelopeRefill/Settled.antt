-- ===== src/Runner/EnvelopeRefill/Settled.antt =====
-- The handler that refills envelopes, and the soundness of the shadow ledger's tables.
use tulip_accounting.Prelude.{ℕ, inl, inr, String, Option, none, some, [], ◌∷◌, ◌++◌, Bool-cases}
use tulip_accounting.Prelude.Dict.{Dict}
use tulip_accounting.Prelude.Results.{
  Error, Result, ok, err, Ensures, >>=-Ensures, >>=-Ensures_always, raise_if-Ensures, Ensures-and,
}
use tulip_accounting.Decimal.{Decimal, not_positive, neg}
use tulip_accounting.Money.{Money, money}
use tulip_accounting.Transactions.{Uuid}
use tulip_accounting.Allocation.{PoolType, RefillRule}
use tulip_accounting.Allocation.Shadow.{ShadowTransaction, check_shadow_transaction}
use tulip_accounting.Storage.Budget.{Budget, PoolRow, EnvelopeRow}
use tulip_accounting.Storage.Budget.Shadow.{save_shadow, void_shadow}
use tulip_accounting.Storage.Budget.Shadow.Book.{book, booked, second}
use tulip_accounting.Storage.Budget.Shadow.Entries.{IsLinked}
use tulip_accounting.Storage.Budget.Shadow.Saving.{save-book}
use tulip_accounting.Storage.Budget.Shadow.Refines.{save-IsLinked, void-IsLinked, void-book}
use tulip_accounting.Storage.Budget.Queries.Settled.{IsSettledBook, save-IsSettled, void-IsSettled}
use tulip_accounting.Transactions.Balance.{net}
use tulip_accounting.Allocation.Refill.{evaluate_refill_rule}
use tulip_accounting.Storage.Budget.Queries.{balance_for_pool}
use tulip_accounting.Storage.Budget.Pools.Turns.{new_pool}
use tulip_accounting.Storage.Budget.Pools.{
  pool_taken, insert_pool, create_pool, get_system_pool, or_create, get_or_create, SystemPools,
  get_or_create_system_pools, get_envelope,
}
use tulip_accounting.Runner.EnvelopeRefill.{
  RefillJob, Drawn, refill_tx, contribute, recent_inflow, refill_by_rule, rule_of, refill_ruled,
  refill_found, refill_given, envelope_refill,
}

-- The shadow ledger is sound: every posting has its header, and what is posted is balanced.
abbrev pub IsSound : Budget → Type 0
IsSound b = IsLinked b × IsSettledBook (book b)

booked-Ensures :
    (r : Result Budget) → Ensures IsSettledBook (booked r) → Ensures (λ b. IsSettledBook (book b)) r
booked-Ensures (ok b) h = h
booked-Ensures (err e) h = h

pub save-IsSound :
    (hh : Uuid) (tx : ShadowTransaction) (now : ℕ) (b : Budget)
    → IsSound b
    → Ensures IsSound (second (save_shadow hh tx now b))
save-IsSound hh tx now b (linked, settled) =
    Ensures-and IsLinked (λ a. IsSettledBook (book a)) (second (save_shadow hh tx now b))
      (save-IsLinked hh tx now b linked)
      (booked-Ensures (second (save_shadow hh tx now b))
        (rw (save-book hh tx now b linked) (save-IsSettled b.pools hh tx now (book b) settled)))

pub void-IsSound :
    (hh id : Uuid) (at : ℕ) (b : Budget)
    → IsSound b
    → Ensures IsSound (second (void_shadow hh id at b))
void-IsSound hh id at b (linked, settled) =
    Ensures-and IsLinked (λ a. IsSettledBook (book a)) (second (void_shadow hh id at b))
      (void-IsLinked hh id at b linked)
      (booked-Ensures (second (void_shadow hh id at b))
        (rw (void-book hh id at b) (void-IsSettled hh id at (book b) settled)))

-- Pools that are made leave the shadow ledger alone.
inserted-IsSound :
    (p : PoolRow) (b : Budget) → IsSound b → Ensures (λ r. IsSound r.1) (insert_pool p b)
unfolding insert_pool
inserted-IsSound p b sound =
    raise_if-Ensures (λ r. IsSound r.1) (pool_taken p b) Error.integrity_error
      (ok (p, record b { pools = b.pools ++ (p ∷ []) })) λ free. sound

created-IsSound :
    (hh id : Uuid) (t : PoolType) (currency : String) (b : Budget) (existing : Option PoolRow)
    → IsSound b
    → Ensures (λ r. IsSound r.1) (or_create hh id t currency b existing)
unfolding or_create create_pool
created-IsSound hh id t currency b (some p) sound = sound
created-IsSound hh id t currency b none sound = inserted-IsSound (new_pool hh currency id t) b sound

turn-IsSound :
    (hh id : Uuid) (t : PoolType) (currency : String) (b : Budget)
    → IsSound b
    → Ensures (λ r. IsSound r.1) (get_or_create hh id t currency b)
unfolding get_or_create
turn-IsSound hh id t currency b sound =
    >>=-Ensures_always (λ r. IsSound r.1) (get_system_pool hh t currency b) _
      λ existing. created-IsSound hh id t currency b existing sound

pub pools-IsSound :
    (fresh : ℕ → Uuid) (hh : Uuid) (currency : String) (b : Budget)
    → IsSound b
    → Ensures (λ r. IsSound r.1) (get_or_create_system_pools fresh hh currency b)
unfolding get_or_create_system_pools
pools-IsSound fresh hh currency b sound =
    let Kept = λ (r : PoolRow × Budget). IsSound r.1 in
    >>=-Ensures Kept (λ r. IsSound r.1) _ _
      (turn-IsSound hh (fresh 0) PoolType.inflow currency b sound)
      λ one s1.
        >>=-Ensures Kept (λ r. IsSound r.1) _ _
          (turn-IsSound hh (fresh 1) PoolType.unallocated currency one.1 s1)
          λ two s2.
            >>=-Ensures Kept (λ r. IsSound r.1) _ _
              (turn-IsSound hh (fresh 2) PoolType.spent currency two.1 s2) λ three s3. s3

amount-IsSound :
    (job : RefillJob) (drawn : Drawn) (pool : PoolRow) (rule : RefillRule)
    (made : SystemPools × Budget) (amount : Money)
    → IsSound made.1
    → Ensures IsSound (contribute job drawn pool rule made amount)
unfolding contribute
amount-IsSound job drawn pool rule made amount sound =
    elim (Bool-cases (not_positive amount.amount)) [
      | inl nothing ↦ rw nothing sound
      | inr something ↦ rw something (
          >>=-Ensures_always IsSound (money (neg amount.amount) pool.currency) _ λ taken.
            >>=-Ensures_always IsSound
              (check_shadow_transaction
                (refill_tx job drawn rule pool made.0.unallocated taken amount))
              _ λ tx. save-IsSound job.household_id tx drawn.saved_at made.1 sound)
    ]

rule-IsSound :
    (job : RefillJob) (drawn : Drawn) (pool : PoolRow) (rule : RefillRule) (b : Budget)
    → IsSound b
    → Ensures IsSound (refill_by_rule job drawn pool rule b)
unfolding refill_by_rule
rule-IsSound job drawn pool rule b sound =
    >>=-Ensures (λ r. IsSound r.1) IsSound _ _
      (pools-IsSound drawn.fresh job.household_id pool.currency b sound)
      λ made s.
        let held =
          net pool.currency
            (balance_for_pool job.household_id pool.id (some pool.currency) none made.1) in
        >>=-Ensures_always IsSound (money held pool.currency) _ λ balance.
          >>=-Ensures_always IsSound
            (recent_inflow rule.strategy job drawn.window_now pool.currency made.1) _
            λ inflow.
              >>=-Ensures_always IsSound (evaluate_refill_rule rule balance inflow) _
                λ amount. amount-IsSound job drawn pool rule made amount s

module _ (loads : String → Result (Dict String)) (to_text : Decimal → String)
    (of_text : String → Option Decimal) (job : RefillJob) (drawn : Drawn) (b : Budget)
    (sound : IsSound b) where
  ruled-IsSound :
      (pool : PoolRow) (text : Option String)
      → Ensures IsSound (refill_ruled loads to_text of_text job drawn pool text b)
  unfolding refill_ruled
  ruled-IsSound pool none = sound
  ruled-IsSound pool (some text) =
      >>=-Ensures_always IsSound (rule_of loads to_text of_text text) _
        λ rule. rule-IsSound job drawn pool rule b sound

  found-IsSound :
      (found : Option (PoolRow × EnvelopeRow))
      → Ensures IsSound (refill_found loads to_text of_text job drawn found b)
  unfolding refill_found
  found-IsSound none = tt
  found-IsSound (some (pool, env)) = elim (Bool-cases pool.is_active) [
    | inr off ↦ rw off sound
    | inl on ↦ rw on (ruled-IsSound pool env.refill_rule_json)
  ]

  given-IsSound :
      (id : Option Uuid) → Ensures IsSound (refill_given loads to_text of_text job drawn id b)
  unfolding refill_given
  given-IsSound none = tt
  given-IsSound (some id) = found-IsSound (get_envelope job.household_id id b)

-- Whatever its rule gives, a run of the refill job that commits leaves a shadow ledger in which every
-- posting has its header and the postings of every posted transaction sum to zero in every
-- currency, if it found such a ledger.
pub envelope_refill-IsSound :
    (loads : String → Result (Dict String)) (to_text : Decimal → String)
    (of_text : String → Option Decimal) (job : RefillJob) (drawn : Drawn) (b : Budget)
    → IsSound b
    → Ensures IsSound (envelope_refill loads to_text of_text job drawn b)
unfolding envelope_refill
envelope_refill-IsSound loads to_text of_text job drawn b sound =
    given-IsSound loads to_text of_text job drawn b sound job.envelope_id
