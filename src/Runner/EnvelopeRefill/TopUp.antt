-- ===== src/Runner/EnvelopeRefill/TopUp.antt =====
-- One run of the refill job under a rule that fills to an amount: its steps, and the balance after it.
use Prim.Native.String.{◌++◌ as concat}
use tulip_accounting.Allocation.Refill.Json.{strategy_value}
use tulip_accounting.Prelude.{
  ◌≡◌, inl, inr, refl, ap, sym, ◌∙◌, arith, true, false, ◌&&◌, String, str_eq, eq_iff, none, some,
  List, [], ◌∷◌, ◌==◌, keep, Bool-cases,
}
use tulip_accounting.Prelude.Results.{ok, is_ok}
use tulip_accounting.Decimal.{Decimal, nought, add, sub, neg, le, not_positive}
use tulip_accounting.Decimal.Arithmetic.{add_comm, nought-add, add-neg_self}
use tulip_accounting.Decimal.Order.{not_positive-sub}
use tulip_accounting.Currency.{from_code}
use tulip_accounting.Money.{Money}
use tulip_accounting.Money.Laws.{money_ok}
use tulip_accounting.Transactions.{Uuid}
use tulip_accounting.Transactions.Balance.{sum_in, net, tally_iff}
use tulip_accounting.Allocation.{RefillRule, RefillStrategy}
use tulip_accounting.Allocation.Refill.Bounds.{positive_part, evaluate-fill_gap}
use tulip_accounting.Allocation.Shadow.{
  shadow_is_balanced, shadow_balance_per_currency, check_shadow_transaction, ShadowPosting,
  ShadowTransaction,
}
use tulip_accounting.Storage.Budget.{Budget, PoolRow, ShadowRow, is_pool, leg_amounts}
use tulip_accounting.Decimal.Quantize.{quantize-neg}
use tulip_accounting.Storage.Rows.{stored}
use tulip_accounting.Storage.Tables.{exists, exists-append_other}
use tulip_accounting.Storage.Budget.Queries.{balance_for_pool, in_currency}
use tulip_accounting.Storage.Budget.Queries.Conserved.{balance_for_pool_lem}
use tulip_accounting.Storage.Budget.Queries.Undone.{IsFresh, put_on, saved_ok, save_shadow-held}
use tulip_accounting.Storage.Budget.Shadow.{save_shadow, shadow_row, shadow_rows_of}
use tulip_accounting.Storage.Budget.Shadow.Book.{second, are_fit, is_stored_balanced}
use tulip_accounting.Storage.Budget.Shadow.Entries.{IsLinked}
use tulip_accounting.Storage.Budget.Shadow.Saving.{saved_budget}
use tulip_accounting.Storage.Budget.Pools.{SystemPools, get_or_create_system_pools}
use tulip_accounting.Storage.Budget.Pools.Turns.{IsFreePool}
use tulip_accounting.Storage.Budget.Pools.System.{two, three, pools_made, headers_same, rows_same}
use tulip_accounting.Runner.EnvelopeRefill.{
  RefillJob, Drawn, refill_tx, contribute, recent_inflow, refill_by_rule,
}

-- What a pool holds in a currency, over all dates.
abbrev pub held_in : Uuid → Uuid → String → Budget → Decimal
held_in hh id c b = net c (balance_for_pool hh id none none b)

filtered :
    (id : Uuid) (c : String) (rows : List ShadowRow)
    → sum_in c (leg_amounts (keep (λ p. p.pool_id == id && in_currency (some c) p) rows))
      ≡ sum_in c (leg_amounts (keep (λ p. p.pool_id == id && in_currency none p) rows))
filtered id c [] = refl
filtered id c (p ∷ rows) = ground (arith, filtered id c rows)

-- The filter on the currency changes nothing in that currency.
held_filtered :
    (hh id : Uuid) (c : String) (b : Budget)
    → net c (balance_for_pool hh id (some c) none b) ≡ held_in hh id c b
held_filtered hh id c b =
    balance_for_pool_lem hh id (some c) none b c
    ∙ filtered id c _
    ∙ sym (balance_for_pool_lem hh id none none b c)

-- Tables with the same shadow ledger give the same balances.
pub held_same :
    (hh id : Uuid) (c : String) (a b : Budget)
    → a.shadow_headers ≡ b.shadow_headers
    → a.shadow_rows ≡ b.shadow_rows
    → held_in hh id c a ≡ held_in hh id c b
unfolding balance_for_pool
held_same hh id c a b headers rows = rw (headers, rows) refl

-- The transaction of a refill is balanced, whatever its amount.
refill_tx-is_balanced :
    (job : RefillJob) (drawn : Drawn) (rule : RefillRule) (pool u : PoolRow) (d : Decimal)
    (c : String)
    → shadow_is_balanced (
        refill_tx job drawn rule pool u
          (record { amount = neg d; currency = c })
          (record { amount = d; currency = c }))
      ≡ true
unfolding shadow_is_balanced shadow_balance_per_currency
refill_tx-is_balanced job drawn rule pool u d c =
    (tally_iff
        (record { amount = neg d; currency = c } ∷ record { amount = d; currency = c } ∷ [])).1
      λ j. elim (Bool-cases (str_eq c j)) [
        | inl same ↦ rw (same, add_comm d nought, nought-add d, add_comm (neg d) d) (add-neg_self d)
        | inr other ↦ rw other refl
      ]

-- So are the amounts that the columns hold of it, which are opposite too.
refill_tx-is_stored_balanced :
    (job : RefillJob) (drawn : Drawn) (rule : RefillRule) (pool u : PoolRow) (d : Decimal)
    (c : String)
    → is_stored_balanced (
        refill_tx job drawn rule pool u
          (record { amount = neg d; currency = c })
          (record { amount = d; currency = c }))
      ≡ true
unfolding is_stored_balanced
refill_tx-is_stored_balanced job drawn rule pool u d c =
    let e = stored d in
    rw (quantize-neg 8 d) (
      (tally_iff
          (record { amount = neg e; currency = c } ∷ record { amount = e; currency = c } ∷ [])).1
        λ j. elim (Bool-cases (str_eq c j)) [
          | inl same ↦
              rw (same, add_comm e nought, nought-add e, add_comm (neg e) e) (add-neg_self e)
          | inr other ↦ rw other refl
        ])

refill_tx_checked :
    (job : RefillJob) (drawn : Drawn) (rule : RefillRule) (pool u : PoolRow) (d : Decimal)
    (c : String)
    → let tx =
        refill_tx job drawn rule pool u
          (record { amount = neg d; currency = c })
          (record { amount = d; currency = c }) in
      check_shadow_transaction tx ≡ ok tx
unfolding check_shadow_transaction
refill_tx_checked job drawn rule pool u d c =
    rw (refill_tx-is_balanced job drawn rule pool u d c) refl

-- The identifiers that a run draws are new: the first three among the household's pools, and
-- different from each other, the fourth among all shadow transactions, and the last two among all
-- shadow postings, and different from each other.
abbrev pub AreNew : RefillJob → Drawn → Budget → Type 0
AreNew job drawn b =
    IsFreePool job.household_id (drawn.fresh 0) b
    × IsFreePool job.household_id (drawn.fresh 1) b
    × IsFreePool job.household_id (drawn.fresh 2) b
    × ((drawn.fresh 0 == drawn.fresh 1) ≡ false)
    × ((drawn.fresh 0 == drawn.fresh 2) ≡ false)
    × ((drawn.fresh 1 == drawn.fresh 2) ≡ false)
    × IsFresh (drawn.fresh 3) b
    × (exists (λ r. r.id == drawn.fresh 4) b.shadow_rows ≡ false)
    × (exists (λ r. r.id == drawn.fresh 5) b.shadow_rows ≡ false)
    × ((drawn.fresh 4 == drawn.fresh 5) ≡ false)

two_are_fit :
    (pools : List PoolRow) (rows : List ShadowRow) (p q : ShadowRow)
    → exists (λ r. r.id == p.id) rows ≡ false
    → exists (λ r. r.id == q.id) rows ≡ false
    → (p.id == q.id) ≡ false
    → exists (is_pool p.household_id p.pool_id) pools ≡ true
    → exists (is_pool q.household_id q.pool_id) pools ≡ true
    → are_fit pools rows (p ∷ q ∷ []) ≡ true
two_are_fit pools rows p q first second apart from to =
    rw (first, from, to, exists-append_other (λ r. r.id == q.id) rows p second apart) refl

module _ (job : RefillJob) (drawn : Drawn) (pool : PoolRow) (rule : RefillRule) (target : Money)
    (b : Budget) (s : rule.strategy ≡ RefillStrategy.fill_to_amount) (a : rule.amount ≡ some target)
    (same : target.currency ≡ pool.currency) (known : is_ok (from_code pool.currency) ≡ true) where
  abbrev hh : Uuid
  hh = job.household_id

  abbrev pub made : Budget
  made = (three hh pool.currency drawn.fresh b).1

  abbrev pub held : Decimal
  held = held_in hh pool.id pool.currency b

  abbrev pub gap : Decimal
  gap = sub target.amount held

  abbrev pub given : Money
  given = record { amount = positive_part gap; currency = pool.currency }

  abbrev pub u : PoolRow
  u = (two hh pool.currency drawn.fresh b).0

  abbrev pub all_pools : SystemPools
  all_pools = pools_made hh pool.currency drawn.fresh b

  no_inflow :
      (m : Budget) → recent_inflow rule.strategy job drawn.window_now pool.currency m ≡ ok none
  unfolding recent_inflow
  no_inflow m = rw s refl

  module _ (sp : SystemPools) (m : Budget) (headers : m.shadow_headers ≡ b.shadow_headers)
      (rows : m.shadow_rows ≡ b.shadow_rows) where
    -- The steps up to the last, once the pools are there.
    pub by_rule :
        get_or_create_system_pools drawn.fresh hh pool.currency b ≡ ok (sp, m)
        → refill_by_rule job drawn pool rule b ≡ contribute job drawn pool rule (sp, m) given
    unfolding refill_by_rule
    by_rule pools =
        rw
          (
            pools,
            held_filtered hh pool.id pool.currency m
                ∙ held_same hh pool.id pool.currency m b headers rows,
            money_ok held pool.currency known,
            no_inflow m,
            evaluate-fill_gap rule target (record { amount = held; currency = pool.currency }) none
                s a same known,
          )
          refl

    -- Where the balance is not below the target nothing is posted.
    pub enough : le target.amount held ≡ true → contribute job drawn pool rule (sp, m) given ≡ ok m
    unfolding contribute
    enough above =
        let nothing : not_positive (positive_part gap) ≡ true =
          rw (not_positive-sub target.amount held, above) refl in
        rw nothing refl

  abbrev pub tx : ShadowTransaction
  tx =
      refill_tx job drawn rule pool u (record { amount = neg gap; currency = pool.currency })
        (record { amount = gap; currency = pool.currency })

  pub lacking :
      le target.amount held ≡ false
      → contribute job drawn pool rule (all_pools, made) given
        ≡ second (save_shadow hh tx drawn.saved_at made)
  unfolding contribute
  lacking below =
      let something : not_positive gap ≡ false = not_positive-sub target.amount held ∙ below in
      rw
        (
          something,
          something,
          money_ok (neg gap) pool.currency known,
          refill_tx_checked job drawn rule pool u gap pool.currency,
        )
        refl

  module _ (linked : IsLinked b) (new : AreNew job drawn b) (other : (u.id == pool.id) ≡ false)
      (source : exists (is_pool hh u.id) made.pools ≡ true)
      (envelope : exists (is_pool hh pool.id) made.pools ≡ true) where
    made-IsLinked : IsLinked made
    made-IsLinked =
        rw (headers_same hh pool.currency drawn.fresh b, rows_same hh pool.currency drawn.fresh b)
          linked

    made-IsFresh : IsFresh tx.id made
    made-IsFresh = rw (headers_same hh pool.currency drawn.fresh b) new.6

    -- What the refill takes from the unallocated.
    abbrev debit : ShadowPosting
    debit = record {
      id = drawn.fresh 4;
      pool_id = u.id;
      amount = record { amount = neg gap; currency = pool.currency };
      memo =
          some
            (concat (concat "Auto-refill from rule (strategy=" (strategy_value rule.strategy)) ")");
    }

    -- What it puts into the envelope.
    abbrev credit : ShadowPosting
    credit = record {
      id = drawn.fresh 5;
      pool_id = pool.id;
      amount = record { amount = gap; currency = pool.currency };
      memo = some (concat "Auto-refill into " pool.name);
    }

    -- The two rows are accepted.
    made-are_fit : are_fit made.pools made.shadow_rows (shadow_rows_of hh tx.id tx.postings) ≡ true
    made-are_fit = rw (rows_same hh pool.currency drawn.fresh b) (
        two_are_fit made.pools b.shadow_rows (shadow_row hh tx.id debit)
          (shadow_row hh tx.id credit) new.7 new.8 new.9 source envelope)

    -- The envelope gets the gap, and only that.
    put : put_on pool.id pool.currency tx.postings ≡ stored gap
    put = rw (other) (
        ground (
          arith,
          eq_iff pool.currency pool.currency,
          add_comm (stored gap) nought,
          nought-add (stored gap),
        ))

    pub topped :
        le target.amount held ≡ false
        → (after : Budget) × (second (save_shadow hh tx drawn.saved_at made) ≡ ok after)
          × (after.pools ≡ made.pools)
          × (after.envelopes ≡ made.envelopes)
          × (held_in hh pool.id pool.currency after ≡ add held (stored gap))
    topped below =
        let balanced = refill_tx-is_stored_balanced job drawn rule pool u gap pool.currency in
        (
          saved_budget hh tx drawn.saved_at made,
          ap second
              (saved_ok hh tx drawn.saved_at made made-IsLinked made-IsFresh made-are_fit balanced),
          refl,
          refl,
          save_shadow-held hh tx drawn.saved_at made made-IsLinked made-IsFresh refl pool.id
                pool.currency
              ∙ rw
                  (
                    put,
                    held_same hh pool.id pool.currency made b
                        (headers_same hh pool.currency drawn.fresh b)
                        (rows_same hh pool.currency drawn.fresh b),
                  )
                  refl,
        )
