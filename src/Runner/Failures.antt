-- ===== src/Runner/Failures.antt =====
-- Handlers that raise: retries with a backoff, and the end of a job that keeps failing.
use tulip_accounting.Prelude.{
  ℕ, zero, suc, ◌+◌, ◌≡◌, ◌&&◌, ◌==◌, inl, inr, refl, ap, ◌∙◌, arith, Bool, true, false, String,
  str_eq, Option, none, some, List, [], ◌∷◌, ◌++◌, leb, length, length-append, keep, if◌then◌else◌,
  Bool-cases,
}
use tulip_accounting.Prelude.Results.{Result, ok}
use tulip_accounting.Transactions.{Uuid}
use tulip_accounting.Storage.Tables.{
  find, update, exists, find-update, find-append_new, update-append_new, keep-append,
  keep-append_other,
}
use tulip_accounting.Runner.{
  Job, Run, RunStatus, Store, Fire, is_job, is_run, is_failure_of, failures, max_retries, retried,
  on_failure, dispatch,
}

abbrev pub handles : List String → Job → Bool
handles handlers job = exists (λ k. str_eq k job.kind) handlers

-- The row of a run that has started.
abbrev pub started_run : Job → Fire → Run
started_run job fire = record {
  household_id = job.household_id;
  id = fire.run_id;
  scheduled_job_id = job.id;
  started_at = fire.started;
  completed_at = none;
  status = RunStatus.running;
  retry_count = 0;
  last_error = none;
}

-- The row of a run that failed.
abbrev pub failed_run : Job → Fire → String → ℕ → RunStatus → Run
failed_run job fire error count status = record {
  household_id = job.household_id;
  id = fire.run_id;
  scheduled_job_id = job.id;
  started_at = fire.started;
  completed_at = some fire.finished;
  status = status;
  retry_count = count;
  last_error = some error;
}

pub failures-append :
    (household_id job_id : Uuid) (runs : List Run) (row : Run)
    → is_failure_of household_id job_id row ≡ true
    → failures household_id job_id (runs ++ (row ∷ [])) ≡ failures household_id job_id runs + 1
failures-append hh id runs row counted =
    ap length (keep-append (is_failure_of hh id) runs (row ∷ []))
    ∙ rw counted (length-append (keep (is_failure_of hh id) runs) (row ∷ []))

retried_key :
    (household_id id : Uuid) (finished count : ℕ) (j : Job)
    → is_job household_id id j ≡ true
    → is_job household_id id (retried finished count j) ≡ true
retried_key hh id finished count j own = elim (Bool-cases (leb max_retries count)) [
  | inl dead ↦ rw dead own
  | inr alive ↦ rw alive own
]

-- The job after its failures, with the waits written out.
retried_waits :
    (finished count : ℕ) (job : Job)
    → retried finished count job ≡ (
        if leb 3 count then record job { is_active = false } else record job {
          next_run_at = finished + (if count == 0 then 60 else if count == 1 then 300 else 1800);
        })
retried_waits finished zero job = refl
retried_waits finished (suc zero) job = refl
retried_waits finished (suc (suc zero)) job = refl
retried_waits finished (suc (suc (suc n))) job = ground arith

abbrev is_failed : RunStatus → Bool
is_failed RunStatus.failed = true
is_failed _ = false

module _ (next_fire : String → ℕ → ℕ → Bool → Result (Option ℕ)) (handlers : List String) where
  -- The rows that a failing fire leaves, by the update of the job.
  pub failing_effect :
      (job : Job) (now : ℕ) (fire : Fire) (error : String) (store : Store)
      → handles handlers job ≡ true
      → fire.error ≡ some error
      → find (is_job job.household_id job.id) store.jobs ≡ some job
      → exists (is_run job.household_id fire.run_id) store.runs ≡ false
      → let count = failures job.household_id job.id store.runs in
        (after : Store) × (dispatch next_fire handlers job now fire store ≡ ok after)
        × (after.runs
            ≡ store.runs
              ++ (failed_run job fire error count
                    (if leb max_retries count then RunStatus.dead_letter else RunStatus.failed)
                  ∷ []))
        × (find (is_job job.household_id job.id) after.jobs
            ≡ some (retried fire.finished count job))
  unfolding dispatch on_failure
  failing_effect job now fire error store registered raises known fresh =
      let hh = job.household_id in
      let count = failures hh job.id store.runs in
      let start = started_run job fire in
      let own : is_run hh fire.run_id start ≡ true = ground arith in
      let not_yet : failures hh job.id (store.runs ++ (start ∷ [])) ≡ count =
        ap length (keep-append_other (is_failure_of hh job.id) store.runs start (ground arith)) in
      let finish = λ (r : Run). record r {
        completed_at = some fire.finished;
        last_error = some error;
        retry_count = count;
        status = if leb max_retries count then RunStatus.dead_letter else RunStatus.failed;
      } in
      (
        record {
          runs = update (is_run hh fire.run_id) finish (store.runs ++ (start ∷ []));
          jobs = update (is_job hh job.id) (retried fire.finished count) store.jobs;
        },
        rw
            (
              registered,
              raises,
              find-append_new (is_run hh fire.run_id) store.runs start fresh own,
              known,
              not_yet,
            )
            refl,
        update-append_new (is_run hh fire.run_id) finish store.runs start fresh own,
        find-update (is_job hh job.id) (retried fire.finished count) store.jobs job
            (retried_key hh job.id fire.finished count) known,
      )

  -- A fire of a stored job whose handler raises leaves one row more, if its run has a new
  -- identifier. With no, one or two failed runs of the job before it the row is failed and the
  -- job's next run is put 60, 300 or 1800 seconds after the end of this one; with three or more
  -- the row is a dead letter and the job inactive.
  pub dispatch_failing :
      (job : Job) (now : ℕ) (fire : Fire) (error : String) (store : Store)
      → handles handlers job ≡ true
      → fire.error ≡ some error
      → find (is_job job.household_id job.id) store.jobs ≡ some job
      → exists (is_run job.household_id fire.run_id) store.runs ≡ false
      → let count = length (
          keep
            (λ r.
              r.household_id == job.household_id
              && r.scheduled_job_id == job.id
              && is_failed r.status)
            store.runs) in
        (after : Store) × (dispatch next_fire handlers job now fire store ≡ ok after)
        × (after.runs
            ≡ store.runs
              ++ (failed_run job fire error count
                    (if leb 3 count then RunStatus.dead_letter else RunStatus.failed)
                  ∷ []))
        × (find (is_job job.household_id job.id) after.jobs
            ≡ some (
                if leb 3 count then record job { is_active = false } else record job {
                  next_run_at =
                      fire.finished + (if count == 0 then 60 else if count == 1 then 300 else 1800);
                }))
  dispatch_failing job now fire error store registered raises known fresh =
      let (after, run, rows, kept) =
        failing_effect job now fire error store registered raises known fresh in
      (
        after,
        run,
        rows,
        kept
            ∙ ap (λ j. some j)
                (retried_waits fire.finished (failures job.household_id job.id store.runs) job),
      )
