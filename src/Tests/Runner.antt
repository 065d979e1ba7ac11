-- ===== src/Tests/Runner.antt =====
-- One job of a household that is due at 100, and the runner's theorems on it.
use tulip_accounting.Prelude.{
  ℕ, ◌+◌, ◌≡◌, refl, arith, Bool, true, false, String, Option, none, some, List, [], ◌∷◌, ◌++◌,
}
use tulip_accounting.Prelude.Results.{Error, Result, ok, err, is_ok}
use tulip_accounting.Transactions.{Uuid}
use tulip_accounting.Storage.Tables.{find}
use tulip_accounting.Runner.{Job, RunStatus, Store, Fire, is_job, advance, dispatch}
use tulip_accounting.Runner.Failures.{failed_run, dispatch_failing}
use tulip_accounting.Runner.DeadLetter.{fire_all, fire_all-ends}
use tulip_accounting.Runner.Success.{IsStrict}
use tulip_accounting.Runner.Stuck.{loop, loop_never_waits}
use tulip_accounting.Runner.Keys.{IsUnique, schedule_one, schedule_recurring, schedule_one_once}

-- A rule that occurs daily.
abbrev daily : String → ℕ → ℕ → Bool → Result (Option ℕ)
daily rule dtstart after inclusive = ok (some (after + 86_400))

abbrev refill_job : Job
refill_job = record {
  household_id = 1;
  id = 40;
  kind = "envelope_refill";
  payload = "{}";
  rrule = some "FREQ=DAILY";
  dtstart = 100;
  next_run_at = 100;
  last_run_at = none;
  idempotency_key = none;
  is_active = true;
  created_by_user_id = some 7;
}

abbrev store : Store
store = record { jobs = refill_job ∷ []; runs = [] }

abbrev failing : Uuid → ℕ → Fire
failing id at = record { run_id = id; started = at; finished = at + 1; error = some "boom" }

abbrev handlers : List String
handlers = "envelope_refill" ∷ []

dispatch_failing_example :
    (after : Store) × (dispatch daily handlers refill_job 100 (failing 41 100) store ≡ ok after)
    × (after.runs ≡ failed_run refill_job (failing 41 100) "boom" 0 RunStatus.failed ∷ [])
    × (find (is_job 1 40) after.jobs ≡ some (record refill_job { next_run_at = 161 }))
dispatch_failing_example =
    dispatch_failing daily handlers refill_job 100 (failing 41 100) "boom" store refl refl refl refl

abbrev four_fires : List Fire
four_fires = failing 41 100 ∷ failing 42 200 ∷ failing 43 600 ∷ failing 44 2500 ∷ []

fire_all-ends_example :
    (after : Store) × (end : Job) × (fire_all daily handlers 1 40 four_fires store ≡ ok after)
    × (find (is_job 1 40) after.jobs ≡ some end)
    × (end.is_active ≡ false)
fire_all-ends_example =
    fire_all-ends daily handlers four_fires refill_job store refl refl
      (("boom", refl), (("boom", refl), (("boom", refl), (("boom", refl), tt))))
      (
        refl,
        (refl, (refl, (refl, tt))),
        (refl, (refl, (refl, tt)), (refl, (refl, tt), (refl, tt, tt))),
      )
      (omega arith) (omega arith)

abbrev returning : Fire
returning = record { run_id = 41; started = 100; finished = 101; error = none }

abbrev next_job : Job
next_job = record refill_job { last_run_at = some 101; next_run_at = 86_501 }

advances : advance daily refill_job 101 ≡ ok next_job
unfolding advance
advances = refl

daily-IsStrict : IsStrict daily handlers
daily-IsStrict rule dtstart after at e = ground arith

-- No handler knows the kind of the job.
loop_never_waits_example : loop daily [] 100 (λ job. failing 41 100) 1000 store ≡ none
loop_never_waits_example =
    loop_never_waits daily [] 100 (λ job. failing 41 100) 1000 store (λ e. absurd (cc e)) (refl, tt)

abbrev after_first : Store
after_first = record store {
  jobs =
      store.jobs
      ++ (record {
        household_id = 1;
        id = 50;
        kind = "tick";
        payload = "{}";
        rrule = none;
        dtstart = 200;
        next_run_at = 200;
        last_run_at = none;
        idempotency_key = some "k";
        is_active = true;
        created_by_user_id = none;
      }
          ∷ []);
}

scheduled : schedule_one 1 50 "tick" "{}" 200 (some "k") none store ≡ ok after_first
unfolding schedule_one
scheduled = refl

schedule_one_once_example :
    IsUnique after_first.jobs
    × (schedule_one 1 51 "tick" "{}" 300 (some "k") none after_first ≡ err Error.key_conflict)
    × ((next_fire : String → ℕ → ℕ → Bool → Result (Option ℕ)) (rrule : String) (start : Option ℕ)
          (clock : ℕ)
        → is_ok (
            schedule_recurring next_fire 1 51 "tick" "{}" rrule start clock
              (some "k")
              none
              after_first)
          ≡ false)
schedule_one_once_example =
    schedule_one_once 1 50 51 "tick" "{}" "{}" "k" 200 300 none none store after_first (tt, tt)
      scheduled
