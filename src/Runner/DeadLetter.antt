-- ===== src/Runner/DeadLetter.antt =====
-- The end of a job whose handler always raises.
use tulip_accounting.Prelude.{
  ℕ, ◌+◌, ◌≤◌, ◌≡◌, ◌⊎◌, inl, inr, refl, arith, Bool, true, false, String, Option, some, List, [],
  ◌∷◌, ◌++◌, ◌==◌, leb, length, All, Bool-cases,
}
use tulip_accounting.Prelude.Results.{Result, ok, ◌>>=◌}
use tulip_accounting.Transactions.{Uuid}
use tulip_accounting.Storage.Tables.{find, exists, exists-append_other}
use tulip_accounting.Runner.{
  Job, Run, RunStatus, Store, Fire, is_job, is_run, failures, max_retries, retry_backoff,
  scalar_one, dispatch,
}
use tulip_accounting.Runner.Failures.{handles, failed_run, failures-append, failing_effect}

abbrev pub Raises : Fire → Type 0
Raises f = (e : String) × (f.error ≡ some e)

-- The fires have identifiers of their own, and new ones.
abbrev pub IsFresh : Uuid → List Run → List Fire → Type 0
IsFresh household_id runs [] = Unit
IsFresh household_id runs (f ∷ fs) =
    (exists (is_run household_id f.run_id) runs ≡ false)
    × All (λ g. (f.run_id == g.run_id) ≡ false) fs
    × IsFresh household_id runs fs

IsFresh-append :
    (hh : Uuid) (runs : List Run) (row : Run) (fs : List Fire)
    → All (λ g. (row.id == g.run_id) ≡ false) fs
    → IsFresh hh runs fs
    → IsFresh hh (runs ++ (row ∷ [])) fs
IsFresh-append hh runs row [] other fresh = tt
IsFresh-append hh runs row (f ∷ fs) (o, others) (new, apart, fresh) = (
  exists-append_other (is_run hh f.run_id) runs row new (ground arith),
  apart,
  IsFresh-append hh runs row fs others fresh,
)

module _ (next_fire : String → ℕ → ℕ → Bool → Result (Option ℕ)) (handlers : List String) where
  -- The fires of one job in turn, as long as it is active.
  unfoldable pub fire_all : Uuid → Uuid → List Fire → Store → Result Store
  fire_all household_id id [] store = ok store
  fire_all household_id id (f ∷ fs) store = do
    job ← scalar_one (find (is_job household_id id) store.jobs)
    elim job.is_active [
      | false ↦ ok store
      | true ↦ do
        after ← dispatch next_fire handlers job f.started f store
        fire_all household_id id fs after
    ]

  abbrev Ends : Uuid → Uuid → List Fire → Store → Type 0
  Ends household_id id fs store =
      (after : Store) × (job : Job) × (fire_all household_id id fs store ≡ ok after)
      × (find (is_job household_id id) after.jobs ≡ some job)
      × (job.is_active ≡ false)

  ends :
      (fs : List Fire) (job : Job) (store : Store)
      → handles handlers job ≡ true
      → find (is_job job.household_id job.id) store.jobs ≡ some job
      → All Raises fs
      → IsFresh job.household_id store.runs fs
      → (job.is_active ≡ false)
        ⊎ ((failures job.household_id job.id store.runs ≤ 3)
            × (4 ≤ failures job.household_id job.id store.runs + length fs))
      → Ends job.household_id job.id fs store
  unfolding fire_all
  ends [] job store registered known raise fresh (inl inactive) =
      (store, job, refl, known, inactive)
  ends [] job store registered known raise fresh (inr (few, enough)) = absurd (omega arith)
  ends (f ∷ fs) job store registered known ((e, raised), raise) (new, apart, fresh) state =
      elim (Bool-cases job.is_active) [
        | inr inactive ↦ (store, job, rw (known, inactive) refl, known, inactive)
        | inl active ↦
            let hh = job.household_id in
            let count = failures hh job.id store.runs in
            let step =
              failing_effect next_fire handlers job f.started f e store registered raised known
                new in
            elim (Bool-cases (leb max_retries count)) [
              | inl dead ↦
                  let now : find (is_job hh job.id) step.0.jobs
                      ≡ some (record job { is_active = false }) =
                    rw dead at step.3 in
                  let rest =
                    ends fs (record job { is_active = false }) step.0 registered now raise
                      (rw step.2 (IsFresh-append hh store.runs _ fs apart fresh)) (inl refl) in
                  (rest.0, rest.1, rw (known, active, step.1) rest.2, rest.3, rest.4)
              | inr alive ↦
                  let later = f.finished + retry_backoff count in
                  let now : find (is_job hh job.id) step.0.jobs
                      ≡ some (record job { next_run_at = later }) =
                    rw alive at step.3 in
                  let row = failed_run job f e count RunStatus.failed in
                  let rows : step.0.runs ≡ store.runs ++ (row ∷ []) = rw alive at step.2 in
                  let more : failures hh job.id step.0.runs ≡ count + 1 =
                    rw rows (failures-append hh job.id store.runs row (ground arith)) in
                  let rest =
                    ends fs (record job { next_run_at = later }) step.0 registered now raise
                      (rw rows (IsFresh-append hh store.runs row fs apart fresh))
                      (elim state [
                        | inl inactive ↦ absurd (cc)
                        | inr (few, enough) ↦ inr (ground arith, omega arith)
                      ]) in
                  (rest.0, rest.1, rw (known, active, step.1) rest.2, rest.3, rest.4)
            ]
      ]

  -- A job that a handler is registered for and that has at most three failures, and whose
  -- handler raises at every fire, is inactive once its failures and the fires offered to it come
  -- to four or more; each fire has a new identifier for its run.
  pub fire_all-ends :
      (fs : List Fire) (job : Job) (store : Store)
      → handles handlers job ≡ true
      → find (is_job job.household_id job.id) store.jobs ≡ some job
      → All Raises fs
      → IsFresh job.household_id store.runs fs
      → failures job.household_id job.id store.runs ≤ 3
      → 4 ≤ failures job.household_id job.id store.runs + length fs
      → (after : Store) × (end : Job) × (fire_all job.household_id job.id fs store ≡ ok after)
        × (find (is_job job.household_id job.id) after.jobs ≡ some end)
        × (end.is_active ≡ false)
  fire_all-ends fs job store registered known raise fresh few enough =
      ends fs job store registered known raise fresh (inr (few, enough))
