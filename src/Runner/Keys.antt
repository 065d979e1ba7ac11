-- ===== src/Runner/Keys.antt =====
-- `schedule_one`, `schedule_recurring` and `cancel`, with the partial unique index on the keys.
use tulip_accounting.Prelude.{
  ℕ, ◌≡◌, inl, inr, refl, arith, Bool, true, false, ◌&&◌, ◌||◌, String, str_eq, eq_iff, Option,
  none, some, List, [], ◌∷◌, ◌++◌, ◌==◌, All, All-append, Bool-cases,
}
use tulip_accounting.Prelude.Results.{
  Error, Result, ok, err, is_ok, Result-cases, raise_if, ◌>>◌, ◌>>=◌, Ensures, raise_if-Ensures,
  Ensures-ok,
}
use tulip_accounting.Transactions.{Uuid}
use tulip_accounting.Storage.Tables.{update, exists}
use tulip_accounting.Runner.{Job, Store, is_job}

abbrev pub same_key : Option String → Option String → Bool
same_key (some a) (some b) = str_eq a b
same_key _ _ = false

-- Two rows that the unique indices exclude: one identifier, or one idempotency key that is not NULL.
abbrev pub clashes : Job → Job → Bool
clashes new j =
    j.household_id == new.household_id
    && (j.id == new.id
        || (str_eq j.kind new.kind && same_key j.idempotency_key new.idempotency_key))

-- `session.add(job)` and `commit`; IntegrityError is raised as IdempotencyKeyConflictError.
unfoldable pub insert_job : Job → Store → Result Store
insert_job job store = do
  raise_if (exists (clashes job) store.jobs) Error.key_conflict
  ok (record store { jobs = store.jobs ++ (job ∷ []) })

-- `schedule_one`
unfoldable pub schedule_one :
    Uuid → Uuid → String → String → ℕ → Option String → Option Uuid → Store → Result Store
unfolding insert_job
schedule_one household_id job_id kind payload fire_at idempotency_key created_by_user_id store =
    insert_job
      (record {
        household_id = household_id;
        id = job_id;
        kind = kind;
        payload = payload;
        rrule = none;
        dtstart = fire_at;
        next_run_at = fire_at;
        last_run_at = none;
        idempotency_key = idempotency_key;
        is_active = true;
        created_by_user_id = created_by_user_id;
      })
      store

-- `cancel`
unfoldable pub cancel : Uuid → Uuid → Store → Store
cancel household_id job_id store = record store {
  jobs = update (is_job household_id job_id) (λ j. record j { is_active = false }) store.jobs;
}

-- `start_at or self._clock()`
abbrev pub start_or : ℕ → Option ℕ → ℕ
start_or clock none = clock
start_or clock (some t) = t

module _ (next_fire : String → ℕ → ℕ → Bool → Result (Option ℕ)) where
  -- `schedule_recurring`; without a start the clock is read.
  unfoldable pub schedule_recurring :
      Uuid
      → Uuid
      → String
      → String
      → String
      → Option ℕ
      → ℕ
      → Option String
      → Option Uuid
      → Store
      → Result Store
  unfolding insert_job
  schedule_recurring household_id job_id kind payload rrule start_at clock idempotency_key
        created_by_user_id store =
      do
        let baseline = start_or clock start_at
        first ← next_fire rrule baseline baseline true
        elim first [
          | none ↦ err Error.no_occurrence
          | some first_fire ↦
              insert_job
                (record {
                  household_id = household_id;
                  id = job_id;
                  kind = kind;
                  payload = payload;
                  rrule = some rrule;
                  dtstart = baseline;
                  next_run_at = first_fire;
                  last_run_at = none;
                  idempotency_key = idempotency_key;
                  is_active = true;
                  created_by_user_id = created_by_user_id;
                })
                store
        ]

-- No row clashes with one above it.
abbrev pub IsUnique : List Job → Type 0
IsUnique [] = Unit
IsUnique (j ∷ js) = All (λ k. clashes k j ≡ false) js × IsUnique js

insert-IsUnique :
    (new : Job) (js : List Job)
    → IsUnique js
    → exists (clashes new) js ≡ false
    → IsUnique (js ++ (new ∷ []))
insert-IsUnique new [] u free = (tt, tt)
insert-IsUnique new (j ∷ js) (others, u) free = (
  All-append (λ k. clashes k j ≡ false) js (new ∷ []) others (ground arith, tt),
  insert-IsUnique new js u (ground arith),
)

insert_job-IsUnique :
    (new : Job) (store : Store)
    → IsUnique store.jobs
    → Ensures (λ s. IsUnique s.jobs) (insert_job new store)
unfolding insert_job
insert_job-IsUnique new store u =
    raise_if-Ensures (λ s. IsUnique s.jobs) (exists (clashes new) store.jobs) Error.key_conflict _
      λ free. insert-IsUnique new store.jobs u free

exists_added :
    (p : Job → Bool) (js : List Job) (j : Job) → p j ≡ true → exists p (js ++ (j ∷ [])) ≡ true
exists_added p [] j own = rw own refl
exists_added p (k ∷ js) j own = ground (arith, exists_added p js j own)

-- Where no two jobs of a store clash, scheduling a job under an idempotency key that succeeds
-- leaves no two that clash. After it any request of the same household for the kind under that
-- key is refused, whatever else it asks for: one to schedule a single run by its conflict, and one
-- to schedule a recurring job too.
pub schedule_one_once :
    (household_id id id' : Uuid) (kind payload payload' key : String) (at at' : ℕ)
    (user user' : Option Uuid) (store after : Store)
    → IsUnique store.jobs
    → schedule_one household_id id kind payload at (some key) user store ≡ ok after
    → IsUnique after.jobs
      × (schedule_one household_id id' kind payload' at' (some key) user' after
          ≡ err Error.key_conflict)
      × ((next_fire : String → ℕ → ℕ → Bool → Result (Option ℕ)) (rrule : String) (start : Option ℕ)
            (clock : ℕ)
          → is_ok (
              schedule_recurring next_fire household_id id' kind payload' rrule start clock
                (some key)
                user'
                after)
            ≡ false)
unfolding schedule_one schedule_recurring insert_job
schedule_one_once hh id id' kind payload payload' key at at' user user' store after u e =
    let job : Job = record {
      household_id = hh;
      id = id;
      kind = kind;
      payload = payload;
      rrule = none;
      dtstart = at;
      next_run_at = at;
      last_run_at = none;
      idempotency_key = some key;
      is_active = true;
      created_by_user_id = user;
    } in
    let again : Option String → ℕ → ℕ → Job = λ rule from first. record job {
      id = id';
      payload = payload';
      rrule = rule;
      dtstart = from;
      next_run_at = first;
      created_by_user_id = user';
    } in
    elim (Bool-cases (exists (clashes job) store.jobs)) [
      | inl taken ↦ absurd (cc (rw taken at e))
      | inr free ↦
          let added : record store { jobs = store.jobs ++ (job ∷ []) } ≡ after =
            cc (rw free at e) in
          let taken : (rule : Option String) (from first : ℕ)
              → exists (clashes (again rule from first)) (store.jobs ++ (job ∷ [])) ≡ true =
            λ rule from first.
              exists_added (clashes (again rule from first)) store.jobs job
                (ground (arith, eq_iff kind kind, eq_iff key key)) in
          (
            Ensures-ok (λ s. IsUnique s.jobs) (insert_job job store) after
                (insert_job-IsUnique job store u) e,
            rw (← added) (rw (taken none at' at') refl),
            λ next_fire rrule start clock.
                let from = start_or clock start in
                (elim (Result-cases (next_fire rrule from from true)) [
                  | inr (e, failed) ↦ rw failed refl
                  | inl (none, never) ↦ rw never refl
                  | inl (some first, found) ↦
                      rw found (rw (← added) (rw (taken (some rrule) from first) refl))
                ]),
          )
    ]
