-- ===== src/Runner/Success.antt =====
-- Handlers that return: the next occurrence, and what becomes of earlier failures.
use tulip_accounting.Prelude.{
  ℕ, ◌≤◌, ◌<◌, ◌≡◌, inl, inr, refl, ap, arith, Bool, true, false, String, Option, none, some, List,
  [], ◌∷◌, ◌++◌, ◌==◌, length,
}
use tulip_accounting.Prelude.Results.{Result, ok, ◌>>=◌, Result-cases}
use tulip_accounting.Storage.Tables.{
  find, update, exists, find-append_new, update-append_new, find-update, find_sound,
  keep-append_other, exists-append_other,
}
use tulip_accounting.Runner.{
  Job, Run, RunStatus, Store, Fire, is_job, is_run, is_failure_of, failures, record_completion,
  put_forward, next_occurrence, advance, advance_after_success, dispatch, is_due,
}
use tulip_accounting.Runner.Failures.{handles, started_run, failing_effect}

abbrev pub successful_run : Job → Fire → Run
successful_run job fire = record (started_run job fire) {
  completed_at = some fire.finished;
  status = RunStatus.success;
}

module _ (next_fire : String → ℕ → ℕ → Bool → Result (Option ℕ)) (handlers : List String) where
  -- A fire of a stored job whose handler returns leaves one successful row more, puts the job
  -- forward, and leaves the job's failures as they were; the run has a new identifier, and the
  -- rule of the job is one that is read.
  pub dispatch_succeeding :
      (job : Job) (now : ℕ) (fire : Fire) (advanced : Job) (store : Store)
      → handles handlers job ≡ true
      → fire.error ≡ none
      → find (is_job job.household_id job.id) store.jobs ≡ some job
      → exists (is_run job.household_id fire.run_id) store.runs ≡ false
      → advance next_fire job fire.finished ≡ ok advanced
      → (dispatch next_fire handlers job now fire store
          ≡ ok (record {
            runs = store.runs ++ (successful_run job fire ∷ []);
            jobs = update (is_job job.household_id job.id) (λ j. advanced) store.jobs;
          }))
        × (failures job.household_id job.id (store.runs ++ (successful_run job fire ∷ []))
            ≡ failures job.household_id job.id store.runs)
  unfolding dispatch record_completion advance_after_success
  dispatch_succeeding job now fire advanced store registered returns known fresh forward =
      let hh = job.household_id in
      let start = started_run job fire in
      let own : is_run hh fire.run_id start ≡ true = ground arith in
      let finish =
        λ (r : Run). record r { completed_at = some fire.finished; status = RunStatus.success } in
      (
        rw
            (
              registered,
              returns,
              find-append_new (is_run hh fire.run_id) store.runs start fresh own,
              known,
              forward,
              update-append_new (is_run hh fire.run_id) finish store.runs start fresh own,
            )
            refl,
        ap length (
            keep-append_other (is_failure_of hh job.id) store.runs (successful_run job fire)
              (ground arith)),
      )

  -- The rule gives no occurrence that is not after the time asked for, as `rule.after` promises.
  abbrev pub IsStrict : Type 0
  IsStrict =
      (rule : String) (dtstart after at : ℕ)
      → next_fire rule dtstart after false ≡ ok (some at)
      → after < at

  occurs_later :
      (rule : Option String) (dtstart after at : ℕ)
      → IsStrict
      → next_occurrence next_fire rule dtstart after ≡ ok (some at)
      → after < at
  occurs_later none dtstart after at strict e = absurd (cc)
  occurs_later (some rule) dtstart after at strict e = strict rule dtstart after at e

  waits :
      (job : Job) (finished now : ℕ) (next : Option ℕ)
      → ((at : ℕ) → next ≡ some at → finished < at)
      → now ≤ finished
      → is_due next_fire now (put_forward job finished next) ≡ false
  waits job finished now none later soon = refl
  waits job finished now (some at) later soon = ground (arith, later at refl)

  -- If a rule's occurrences come after the time that they are asked for, a job that was put
  -- forward after a successful fire is not due at any time up to its completion, and one without
  -- a rule is inactive.
  pub advance-is_due :
      (job advanced : Job) (finished now : ℕ)
      → IsStrict
      → advance next_fire job finished ≡ ok advanced
      → now ≤ finished
      → (is_due next_fire now advanced ≡ false) × (job.rrule ≡ none → advanced.is_active ≡ false)
  unfolding advance
  advance-is_due job advanced finished now strict e soon =
      elim (Result-cases (next_occurrence next_fire job.rrule job.dtstart finished)) [
        | inr (x, raised) ↦ absurd (cc (rw raised at e))
        | inl (next, given) ↦
            let same : put_forward job finished next ≡ advanced = cc (rw given at e) in
            (
              rw (← same) (
                  waits job finished now next
                    (λ at is_at.
                      occurs_later job.rrule job.dtstart finished at strict (rw (← is_at) given))
                    soon),
              λ no_rule.
                  let none_left : next ≡ none = cc (rw no_rule at given) in
                  rw (← same) (rw none_left refl),
            )
      ]

  -- A success does not make up for earlier failures: a recurring job with three of them, fired once
  -- with success and then with an error, is made inactive by that error.
  pub success_forgets_nothing :
      (job : Job) (at now next_now : ℕ) (good bad : Fire) (e : String) (store : Store)
      → handles handlers job ≡ true
      → good.error ≡ none
      → bad.error ≡ some e
      → find (is_job job.household_id job.id) store.jobs ≡ some job
      → exists (is_run job.household_id good.run_id) store.runs ≡ false
      → exists (is_run job.household_id bad.run_id) store.runs ≡ false
      → (good.run_id == bad.run_id) ≡ false
      → next_occurrence next_fire job.rrule job.dtstart good.finished ≡ ok (some at)
      → failures job.household_id job.id store.runs ≡ 3
      → (after : Store) × (end : Job) × ((dispatch next_fire handlers job now good store >>= λ mid.
            dispatch next_fire handlers (put_forward job good.finished (some at)) next_now bad mid)
          ≡ ok after)
        × (find (is_job job.household_id job.id) after.jobs ≡ some end)
        × (end.is_active ≡ false)
  unfolding advance
  success_forgets_nothing job at now next_now good bad e store registered returns raised known fresh
        fresh2 apart forward three =
      let hh = job.household_id in
      let job' = put_forward job good.finished (some at) in
      let first =
        dispatch_succeeding job now good job' store registered returns known fresh
          (rw forward refl) in
      let mid : Store = record {
        runs = store.runs ++ (successful_run job good ∷ []);
        jobs = update (is_job hh job.id) (λ j. job') store.jobs;
      } in
      let found : find (is_job hh job.id) mid.jobs ≡ some job' =
        find-update (is_job hh job.id) (λ j. job') store.jobs job
          (λ j own. find_sound (is_job hh job.id) store.jobs job known) known in
      let second =
        failing_effect next_fire handlers job' next_now bad e mid registered raised found (
          exists-append_other (is_run hh bad.run_id) store.runs (successful_run job good) fresh2
            (ground arith)) in
      (
        second.0,
        record job' { is_active = false },
        rw first.0 second.1,
        rw (first.1, three) at second.3,
        refl,
      )
