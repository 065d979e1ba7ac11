-- ===== src/Runner/EnvelopeRefill/Twice.antt =====
-- Two runs of the refill job under a rule that fills to an amount.
use tulip_accounting.Prelude.{
  ◌≡◌, ◌≤◌, inl, inr, refl, ap, ◌∙◌, arith, true, false, not, ◌&&◌, String, Option, none, some,
  ◌==◌, if◌then◌else◌, Bool-cases,
}
use mathlib.Core.Option.{some-injective}
use tulip_accounting.Prelude.Dict.{Dict}
use tulip_accounting.Prelude.Results.{Result, ok, is_ok, ◌>>=◌}
use tulip_accounting.Decimal.{Decimal, le, eq}
use tulip_accounting.Decimal.Order.{eq-le}
use tulip_accounting.Decimal.Quantize.{eq-add-quantize}
use tulip_accounting.Currency.{from_code}
use tulip_accounting.Money.{Money}
use tulip_accounting.Transactions.{Uuid}
use tulip_accounting.Allocation.{PoolType, RefillRule, RefillStrategy}
use tulip_accounting.Storage.Tables.{find, exists, find_sound, find-absent, found-exists}
use tulip_accounting.Storage.Budget.{Budget, PoolRow, EnvelopeRow, is_pool}
use tulip_accounting.Storage.Budget.Shadow.Entries.{IsLinked}
use tulip_accounting.Storage.Budget.Pools.{
  SystemPools, is_system_pool, is_envelope_row, is_envelope_pool, both, get_envelope,
}
use tulip_accounting.Storage.Budget.Pools.Turns.{IsFreePool}
use tulip_accounting.Storage.Budget.Pools.System.{
  two, headers_same, rows_same, envelopes_same, found_still, system_apart, unallocated_stays,
  pools_ok, again_all,
}
use tulip_accounting.Runner.EnvelopeRefill.{
  RefillJob, Drawn, contribute, refill_by_rule, rule_of, refill_ruled, refill_found, refill_given,
  envelope_refill,
}
use tulip_accounting.Runner.EnvelopeRefill.TopUp.{
  AreNew, held_in, held_same, given, made, all_pools, by_rule, enough, lacking, topped,
}

-- The two rows that an envelope is made of.
both_parts :
    (o : Option PoolRow) (r : Option EnvelopeRow) (pool : PoolRow) (env : EnvelopeRow)
    → both o r ≡ some (pool, env)
    → (o ≡ some pool) × (r ≡ some env)
both_parts none r pool env e = absurd (cc)
both_parts (some p) none pool env e = absurd (cc)
both_parts (some p) (some q) pool env e =
    let same = some-injective (p, q) (pool, env) e in
    (ap (λ x. some x.0) same, ap (λ x. some x.1) same)

parts :
    (hh id : Uuid) (b : Budget) (pool : PoolRow) (env : EnvelopeRow)
    → get_envelope hh id b ≡ some (pool, env)
    → (find (is_envelope_pool hh id) b.pools ≡ some pool)
      × (find (is_envelope_row hh id) b.envelopes ≡ some env)
unfolding get_envelope
parts hh id b pool env e =
    both_parts (find (is_envelope_pool hh id) b.pools) (find (is_envelope_row hh id) b.envelopes)
      pool env e

joined :
    (hh id : Uuid) (b : Budget) (pool : PoolRow) (env : EnvelopeRow)
    → find (is_envelope_pool hh id) b.pools ≡ some pool
    → find (is_envelope_row hh id) b.envelopes ≡ some env
    → get_envelope hh id b ≡ some (pool, env)
unfolding get_envelope
joined hh id b pool env found row =
    ap (λ o. both o (find (is_envelope_row hh id) b.envelopes)) found ∙ ap (both (some pool)) row

module _ (loads : String → Result (Dict String)) (to_text : Decimal → String)
    (of_text : String → Option Decimal) where
  -- A run for an active envelope with a readable rule is a run of the rule.
  refills :
      (job : RefillJob) (drawn : Drawn) (b : Budget) (id : Uuid) (pool : PoolRow)
      (env : EnvelopeRow) (text : String) (rule : RefillRule)
      → job.envelope_id ≡ some id
      → get_envelope job.household_id id b ≡ some (pool, env)
      → pool.is_active ≡ true
      → env.refill_rule_json ≡ some text
      → rule_of loads to_text of_text text ≡ ok rule
      → envelope_refill loads to_text of_text job drawn b ≡ refill_by_rule job drawn pool rule b
  unfolding envelope_refill refill_given refill_found refill_ruled
  refills job drawn b id pool env text rule asked found active ruled read =
      ap (λ o. refill_given loads to_text of_text job drawn o b) asked
      ∙ ap (λ f. refill_found loads to_text of_text job drawn f b) found
      ∙ ap
          (λ on.
            if not on
            then ok b
            else refill_ruled loads to_text of_text job drawn pool env.refill_rule_json b)
          active
      ∙ ap (λ t. refill_ruled loads to_text of_text job drawn pool t b) ruled
      ∙ ap (λ r. r >>= λ q. refill_by_rule job drawn pool q b) read

  module _ (job : RefillJob) (drawn : Drawn) (b : Budget) (id : Uuid) (pool : PoolRow)
      (env : EnvelopeRow) (text : String) (rule : RefillRule) (target : Money)
      (asked : job.envelope_id ≡ some id)
      (present : get_envelope job.household_id id b ≡ some (pool, env))
      (active : pool.is_active ≡ true) (ruled : env.refill_rule_json ≡ some text)
      (read : rule_of loads to_text of_text text ≡ ok rule)
      (s : rule.strategy ≡ RefillStrategy.fill_to_amount) (a : rule.amount ≡ some target)
      (same : target.currency ≡ pool.currency)
      (known : is_ok (from_code pool.currency) ≡ true) where
    abbrev hh : Uuid
    hh = job.household_id

    abbrev first : Budget
    first = made job drawn pool rule target b s a same known

    abbrev sp : SystemPools
    sp = all_pools job drawn pool rule target b s a same known

    abbrev d : Decimal
    d = held_in hh pool.id pool.currency b

    -- Tables with the pools of the first run, its envelopes, and at least the target: a run changes
    -- nothing.
    rests :
        (later : Drawn) (after : Budget)
        → after.pools ≡ first.pools
        → after.envelopes ≡ first.envelopes
        → le target.amount (held_in hh pool.id pool.currency after) ≡ true
        → envelope_refill loads to_text of_text job later after ≡ ok after
    rests later after pools envelopes full =
        let rows = parts hh id b pool env present in
        let still =
          joined hh id after pool env
            (rw pools
              (found_still hh pool.currency drawn.fresh b (is_envelope_pool hh id) pool rows.0))
            (rw (envelopes, envelopes_same hh pool.currency drawn.fresh b) rows.1) in
        refills job later after id pool env text rule asked still active ruled read
        ∙ by_rule job later pool rule target after s a same known sp after refl refl
            (again_all hh pool.currency drawn.fresh b later.fresh after pools)
        ∙ enough job later pool rule target after s a same known sp after refl refl full

    module _ (linked : IsLinked b) (new : AreNew job drawn b)
        (apart : exists (λ p. p.is_system && is_pool hh id p) b.pools ≡ false)
        (short : target.amount.places ≤ 8) (kept : d.places ≤ 8) where
      own : is_envelope_pool hh id pool ≡ true
      own = find_sound (is_envelope_pool hh id) b.pools pool (parts hh id b pool env present).0

      not_drawn : (key : Uuid) → IsFreePool hh key b → (key == id) ≡ false
      not_drawn key free =
          let found = (parts hh id b pool env present).0 in
          let miss =
            find-absent (is_envelope_pool hh id) (is_pool hh key) b.pools pool found free in
          let mine = own in ground arith

      -- The pool that the refill takes from is not the envelope's.
      other : ((two hh pool.currency drawn.fresh b).0.id == pool.id) ≡ false
      other =
          let source = (two hh pool.currency drawn.fresh b).0 in
          let stays = unallocated_stays hh pool.currency drawn.fresh b in
          let system = is_system_pool hh PoolType.unallocated pool.currency in
          let kept =
            system_apart hh pool.currency drawn.fresh b id apart (not_drawn (drawn.fresh 0) new.0)
              (not_drawn (drawn.fresh 1) new.1) (not_drawn (drawn.fresh 2) new.2) in
          let sound = find_sound system first.pools source stays in
          let miss =
            find-absent system (λ p. p.is_system && is_pool hh id p) first.pools source stays
              kept in
          let mine = own in ground arith

      -- Both pools of the refill are the household's.
      source_there :
          exists (is_pool hh (two hh pool.currency drawn.fresh b).0.id) first.pools ≡ true
      source_there =
          let source = (two hh pool.currency drawn.fresh b).0 in
          let stays = unallocated_stays hh pool.currency drawn.fresh b in
          let system = is_system_pool hh PoolType.unallocated pool.currency in
          let sound = find_sound system first.pools source stays in
          found-exists system (is_pool hh source.id) first.pools source stays (ground arith)

      envelope_there : exists (is_pool hh pool.id) first.pools ≡ true
      envelope_there =
          let mine = own in
          found-exists (is_envelope_pool hh id) (is_pool hh pool.id) first.pools pool
            (found_still hh pool.currency drawn.fresh b (is_envelope_pool hh id) pool
              (parts hh id b pool env present).0)
            (ground arith)

      runs :
          envelope_refill loads to_text of_text job drawn b
          ≡ contribute job drawn pool rule
              (sp, first)
              (given job drawn pool rule target b s a same known)
      runs =
          refills job drawn b id pool env text rule asked present active ruled read
          ∙ by_rule job drawn pool rule target b s a same known sp first
              (headers_same hh pool.currency drawn.fresh b)
              (rows_same hh pool.currency drawn.fresh b)
              (pools_ok hh pool.currency drawn.fresh b new.0 new.1 new.2 new.3 new.4 new.5)

      -- A run of the refill job for an active envelope whose stored rule fills to an amount in
      -- the envelope's known currency succeeds, if every shadow posting has its header, the
      -- identifiers drawn are new, no system pool has the envelope's identifier, and neither the
      -- amount nor what the envelope holds has more than eight places. The envelope then holds the
      -- amount if it held less, and what it held otherwise; and after it another run, whatever it
      -- draws, succeeds and changes nothing.
      pub envelope_refill-fill :
          (after : Budget) × (envelope_refill loads to_text of_text job drawn b ≡ ok after)
          × (le target.amount d ≡ false
              → eq (held_in hh pool.id pool.currency after) target.amount ≡ true)
          × (le target.amount d ≡ true → held_in hh pool.id pool.currency after ≡ d)
          × ((later : Drawn) → envelope_refill loads to_text of_text job later after ≡ ok after)
      envelope_refill-fill = elim (Bool-cases (le target.amount d)) [
        | inl full ↦
            let unchanged =
              held_same hh pool.id pool.currency first b
                (headers_same hh pool.currency drawn.fresh b)
                (rows_same hh pool.currency drawn.fresh b) in
            (
              first,
              runs
                  ∙ enough job drawn pool rule target b s a same known sp first
                      (headers_same hh pool.currency drawn.fresh b)
                      (rows_same hh pool.currency drawn.fresh b) full,
              λ below. absurd (cc),
              λ _. unchanged,
              λ later. rests later first refl refl (rw unchanged full),
            )
        | inr below ↦
            let (after, saved, pools, envelopes, sum) =
              topped job drawn pool rule target b s a same known linked new other source_there
                envelope_there below in
            let reached : eq (held_in hh pool.id pool.currency after) target.amount ≡ true =
              rw sum (eq-add-quantize 8 target.amount d short kept) in
            (
              after,
              runs ∙ lacking job drawn pool rule target b s a same known below ∙ saved,
              λ _. reached,
              λ full. absurd (cc),
              λ later.
                  rests later after pools envelopes
                    (eq-le (held_in hh pool.id pool.currency after) target.amount reached),
            )
      ]
