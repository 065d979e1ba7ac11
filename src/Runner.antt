-- ===== src/Runner.antt =====
-- tulip_storage/runner/runner.py: the scheduler that polls for due jobs. Times are seconds. What the
-- environment decides in one fire is a `Fire`: the readings of the clock, the identifier of the run,
-- and whether the handler raised. `compute_next_fire` rests on a package and is a parameter.
pub mod Failures
pub mod DeadLetter
pub mod Success
pub mod Stuck
pub mod Keys
pub mod EnvelopeRefill
use Prim.Native.String.{◌++◌ as ◌<>◌}
use tulip_accounting.Prelude.{
  ℕ, zero, suc, ◌+◌, Bool, true, false, not, ◌&&◌, String, str_eq, Option, none, some, List, [],
  ◌∷◌, ◌++◌, ◌==◌, leb, length, keep, if◌then◌else◌,
}
use tulip_accounting.Prelude.Results.{Error, Result, ok, err, raise_if, ◌>>◌, ◌>>=◌}
use tulip_accounting.Transactions.{Uuid}
use tulip_accounting.Storage.Tables.{find, update, exists}

-- `models.ScheduledJob`; the payload is a text.
pub record Job : Type 0 where
  pub household_id : Uuid
  pub id : Uuid
  pub kind : String
  pub payload : String
  pub rrule : Option String
  pub dtstart : ℕ
  pub next_run_at : ℕ
  pub last_run_at : Option ℕ
  pub idempotency_key : Option String
  pub is_active : Bool
  pub created_by_user_id : Option Uuid

-- `ScheduledJobRunStatus`
pub data RunStatus : Type 0 where
  running success failed dead_letter : RunStatus

-- `models.ScheduledJobRun`
pub record Run : Type 0 where
  pub household_id : Uuid
  pub id : Uuid
  pub scheduled_job_id : Uuid
  pub started_at : ℕ
  pub completed_at : Option ℕ
  pub status : RunStatus
  pub retry_count : ℕ
  pub last_error : Option String

-- The two tables.
pub record Store : Type 0 where
  pub jobs : List Job
  pub runs : List Run

-- One fire: an error is the redacted text of what the handler raised.
pub record Fire : Type 0 where
  pub run_id : Uuid
  pub started : ℕ
  pub finished : ℕ
  pub error : Option String

abbrev pub is_job : Uuid → Uuid → Job → Bool
is_job household_id id j = j.household_id == household_id && j.id == id

abbrev pub is_run : Uuid → Uuid → Run → Bool
is_run household_id id r = r.household_id == household_id && r.id == id

abbrev pub has_failed : RunStatus → Bool
has_failed RunStatus.failed = true
has_failed RunStatus.running = false
has_failed RunStatus.success = false
has_failed RunStatus.dead_letter = false

-- The query for the failures of a job.
abbrev pub is_failure_of : Uuid → Uuid → Run → Bool
is_failure_of household_id job_id r =
    r.household_id == household_id && r.scheduled_job_id == job_id && has_failed r.status

abbrev pub failures : Uuid → Uuid → List Run → ℕ
failures household_id job_id runs = length (keep (is_failure_of household_id job_id) runs)

-- `RETRY_BACKOFF[retry_count]`; the index is below 3 where it is read.
abbrev pub retry_backoff : ℕ → ℕ
retry_backoff zero = 60
retry_backoff (suc zero) = 300
retry_backoff (suc (suc _)) = 1800

abbrev pub max_retries : ℕ
max_retries = 3

-- `scalar_one`
abbrev pub scalar_one {ℓ} : {A : Type ℓ} → Option A → Result A
scalar_one none = err Error.not_found
scalar_one (some a) = ok a

-- `_record_start`
abbrev pub record_start : Job → Fire → Store → Store
record_start job fire store = record store {
  runs =
      store.runs
      ++ (record {
        household_id = job.household_id;
        id = fire.run_id;
        scheduled_job_id = job.id;
        started_at = fire.started;
        completed_at = none;
        status = RunStatus.running;
        retry_count = 0;
        last_error = none;
      }
          ∷ []);
}

-- `_record_outcome` as `_dispatch` calls it: one finished row, and the job left as it is. The kind has no
-- quotes, so its `repr` is itself in quotes.
abbrev pub record_outcome : Job → Uuid → ℕ → Store → Store
record_outcome job run_id now store = record store {
  runs =
      store.runs
      ++ (record {
        household_id = job.household_id;
        id = run_id;
        scheduled_job_id = job.id;
        started_at = now;
        completed_at = some now;
        status = RunStatus.failed;
        retry_count = 0;
        last_error = some ("no handler registered for kind='" <> job.kind <> "'");
      }
          ∷ []);
}

-- `_record_completion` with the status SUCCESS
unfoldable pub record_completion : Job → Fire → Store → Result Store
record_completion job fire store = do
  run ← scalar_one (find (is_run job.household_id fire.run_id) store.runs)
  ok (record store {
    runs =
        update (is_run job.household_id fire.run_id)
          (λ r. record r { completed_at = some fire.finished; status = RunStatus.success })
          store.runs;
  })

-- What `_on_failure` does to the job: a retry after the backoff, or an inactive job.
abbrev pub retried : ℕ → ℕ → Job → Job
retried finished retry_count j =
    if leb max_retries retry_count
    then record j { is_active = false }
    else record j { next_run_at = finished + retry_backoff retry_count }

-- `_on_failure`
unfoldable pub on_failure : Job → Fire → Option String → Store → Result Store
on_failure job fire error store = do
  run ← scalar_one (find (is_run job.household_id fire.run_id) store.runs)
  attached ← scalar_one (find (is_job job.household_id job.id) store.jobs)
  let retry_count = failures job.household_id job.id store.runs
  ok (record {
    runs =
        update (is_run job.household_id fire.run_id)
          (λ r. record r {
            completed_at = some fire.finished;
            last_error = error;
            retry_count = retry_count;
            status =
                if leb max_retries retry_count then RunStatus.dead_letter else RunStatus.failed;
          })
          store.runs;
    jobs = update (is_job job.household_id job.id) (retried fire.finished retry_count) store.jobs;
  })

-- The job at its next occurrence, or inactive where there is none.
abbrev pub put_forward : Job → ℕ → Option ℕ → Job
put_forward j completed_at none = record j { last_run_at = some completed_at; is_active = false }
put_forward j completed_at (some at) = record j {
  last_run_at = some completed_at;
  next_run_at = at;
}

module _ (next_fire : String → ℕ → ℕ → Bool → Result (Option ℕ)) where
  -- The next occurrence of a job's rule; a job without a rule has none.
  abbrev pub next_occurrence : Option String → ℕ → ℕ → Result (Option ℕ)
  next_occurrence none dtstart after = ok none
  next_occurrence (some rule) dtstart after = next_fire rule dtstart after false

  -- What `_advance_after_success` does to the job.
  unfoldable pub advance : Job → ℕ → Result Job
  advance j completed_at = do
    next ← next_occurrence j.rrule j.dtstart completed_at
    ok (put_forward j completed_at next)

  -- `_advance_after_success`
  unfoldable pub advance_after_success : Job → ℕ → Store → Result Store
  unfolding advance
  advance_after_success job completed_at store = do
    attached ← scalar_one (find (is_job job.household_id job.id) store.jobs)
    advanced ← advance attached completed_at
    ok (record store { jobs = update (is_job job.household_id job.id) (λ j. advanced) store.jobs })

  -- `_dispatch`; the registered kinds stand for `_handlers`.
  unfoldable pub dispatch : List String → Job → ℕ → Fire → Store → Result Store
  unfolding record_completion on_failure advance_after_success
  dispatch handlers job now fire store =
      if not (exists (λ k. str_eq k job.kind) handlers)
      then ok (record_outcome job fire.run_id now store)
      else elim fire.error [
        | some e ↦ on_failure job fire (some e) (record_start job fire store)
        | none ↦ do
          recorded ← record_completion job fire (record_start job fire store)
          advance_after_success job fire.finished recorded
      ]

  -- `_fetch_due`
  abbrev pub is_due : ℕ → Job → Bool
  is_due now j = j.is_active && leb j.next_run_at now

  abbrev pub fetch_due : ℕ → Store → List Job
  fetch_due now store = keep (is_due now) store.jobs

  -- The loop of `run_once` over the snapshots, with a fire for each.
  unfoldable pub dispatch_each : List String → ℕ → (Job → Fire) → List Job → Store → Result Store
  unfolding dispatch
  dispatch_each handlers now fires [] store = ok store
  dispatch_each handlers now fires (j ∷ js) store = do
    after ← dispatch handlers j now (fires j) store
    dispatch_each handlers now fires js after

  -- `run_once`: the store after it, and how many jobs it dispatched.
  unfoldable pub run_once : List String → ℕ → (Job → Fire) → Store → Result (ℕ × Store)
  unfolding dispatch_each
  run_once handlers now fires store = do
    let due = fetch_due now store
    after ← dispatch_each handlers now fires due store
    ok (length due, after)
