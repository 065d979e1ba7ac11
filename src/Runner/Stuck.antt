-- ===== src/Runner/Stuck.antt =====
-- Jobs of a kind that no handler is registered for.
use tulip_accounting.Prelude.{
  ℕ, zero, suc, ◌+◌, ◌≡◌, ◌≢◌, refl, sym, subst, arith, Bool, false, String, Option, none, some,
  List, [], ◌∷◌, length, length-append, keep, All,
}
use tulip_accounting.Prelude.Results.{Result, ok, err}
use tulip_accounting.Runner.{
  Job, Store, Fire, record_outcome, dispatch, is_due, fetch_due, dispatch_each, run_once,
}
use tulip_accounting.Runner.Failures.{handles}

positive : (js : List Job) → js ≢ [] → (n : ℕ) × (length js ≡ suc n)
positive [] h = absurd (h refl)
positive (j ∷ js) h = (length js, refl)

module _ (next_fire : String → ℕ → ℕ → Bool → Result (Option ℕ)) (handlers : List String) (now : ℕ)
    (fires : Job → Fire) where
  -- `_loop`, for as many rounds as the fuel says: the store at which it waits for the next interval.
  -- A poll that raises counts as one that fired nothing.
  unfoldable pub loop : ℕ → Store → Option Store
  loop zero store = none
  loop (suc rounds) store = elim (run_once next_fire handlers now fires store) [
    | err e ↦ some store
    | ok r ↦ elim r.0 [ zero ↦ some r.1 | suc _ ↦ loop rounds r.1 ]
  ]

  each_unhandled :
      (js : List Job) (store : Store)
      → All (λ j. handles handlers j ≡ false) js
      → (after : Store) × (dispatch_each next_fire handlers now fires js store ≡ ok after)
        × (after.jobs ≡ store.jobs)
        × (length after.runs ≡ length store.runs + length js)
  unfolding dispatch_each dispatch
  each_unhandled [] store unhandled = (store, refl, refl, omega arith)
  each_unhandled (j ∷ js) store (u, us) =
      let mid = record_outcome j (fires j).run_id now store in
      let rest = each_unhandled js mid us in
      (rest.0, rw u rest.1, rest.2, omega (arith, rest.3, length-append {0} store.runs _))

  -- A poll at which no due job has a handler leaves the jobs as they are, due as before, and adds a row
  -- for each of them; it returns their number.
  pub run_once_unhandled :
      (store : Store)
      → All (λ j. handles handlers j ≡ false) (fetch_due next_fire now store)
      → (after : Store) × (run_once next_fire handlers now fires store
          ≡ ok (length (fetch_due next_fire now store), after))
        × (after.jobs ≡ store.jobs)
        × (length after.runs ≡ length store.runs + length (fetch_due next_fire now store))
  unfolding run_once
  run_once_unhandled store unhandled =
      let r = each_unhandled (fetch_due next_fire now store) store unhandled in
      (r.0, rw r.1 refl, r.2, r.3)

  -- While jobs are due and none of them has a handler, the loop never comes to wait: at one
  -- reading of the clock every number of rounds is followed by another.
  pub loop_never_waits :
      (rounds : ℕ) (store : Store)
      → fetch_due next_fire now store ≢ []
      → All (λ j. handles handlers j ≡ false) (fetch_due next_fire now store)
      → loop rounds store ≡ none
  unfolding loop
  loop_never_waits zero store due unhandled = refl
  loop_never_waits (suc rounds) store due unhandled =
      let r = run_once_unhandled store unhandled in
      let some_due = positive (fetch_due next_fire now store) due in
      rw (loop, r.1, some_due.1)
        (loop_never_waits rounds r.0
          (subst (λ jobs. keep (is_due next_fire now) jobs ≢ []) (sym r.2) due)
          (subst (λ jobs. All (λ j. handles handlers j ≡ false) (keep (is_due next_fire now) jobs))
            (sym r.2) unhandled))
