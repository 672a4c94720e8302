-- ===== src/Job/Owner.antt =====
-- The owner of jobs: crates/reiny/src/job/owner.rs. Whether a task has finished, whether there is a
-- runtime, whether the deadline can be represented and which joins make it are parameters: they are
-- what tokio tells. The workers are of one type of job.
pub mod Shutdown
use reiny.Prelude.{
  zero, suc, take, drop, ℕ, ◌+◌, Bool, true, false, not, Option, none, some, List, [], ◌∷◌, ◌++◌,
  Result, ok, err, refuse, ok_or, ◌>>◌, ◌>>=◌, leb, length, map, if◌then◌else◌,
}
use reiny.Step.Request.{u64_max, checked_add}
use reiny.Job.Types.{JobSnapshot}
use reiny.Job.State.{started, request_cancel}

-- `control` is the snapshot that the worker shares with its handles.
pub record Worker (P T E : Type 0) : Type 0 where
  pub id : ℕ
  pub control : JobSnapshot P T E

pub record JobOwner (P T E : Type 0) : Type 0 where
  pub capacity : ℕ
  pub closed : Bool
  pub workers : List (Worker P T E)

pub data StartError : Type 0 where
  closed at_capacity id_exhausted runtime_unavailable : StartError

pub data ShutdownError : Type 0 where
  invalid_deadline : ShutdownError

-- `err`s of `shutdown`, and the end of the fuel of its loop.
pub data ShutdownFailure : Type 0 where
  refused : ShutdownError → ShutdownFailure
  out_of_fuel : ShutdownFailure

pub record ShutdownReport : Type 0 where
  pub unresponsive : List ℕ
  pub join_failures : List ℕ

-- The end of `timeout_at` on a join: the worker returned, it panicked or was interrupted, or the
-- deadline came first.
pub data Joined : Type 0 where
  returned broken late : Joined

-- The workers and the report that the loop of `shutdown` leaves.
abbrev pub Finished : Type 0 → Type 0 → Type 0 → Type 0
Finished P T E = List (Worker P T E) × ShutdownReport

module _ {P T E : Type 0} where
  abbrev pub new : ℕ → JobOwner P T E
  new capacity = record { capacity = capacity; closed = false; workers = [] }

  abbrev pub retain : (ℕ → Bool) → List (Worker P T E) → List (Worker P T E)
  retain is_finished [] = []
  retain is_finished (worker ∷ rest) =
      let kept = retain is_finished rest in if is_finished worker.id then kept else worker ∷ kept

  abbrev pub new_worker : ℕ → Worker P T E
  new_worker id = record { id = id; control = started id }

  -- The id that is taken of `NEXT_ID`, with what is left there.
  abbrev pub spawn : JobOwner P T E → ℕ → Option ℕ → Result StartError ℕ × (JobOwner P T E × ℕ)
  spawn owner counter none = (err id_exhausted, (owner, counter))
  spawn owner counter (some following) = (
    ok counter,
    (record owner { workers = owner.workers ++ (new_worker counter ∷ []) }, following),
  )

  abbrev pub admit : Bool → JobOwner P T E → ℕ → Result StartError ℕ × (JobOwner P T E × ℕ)
  admit has_runtime owner counter =
      if leb owner.capacity (length owner.workers)
      then (err at_capacity, (owner, counter))
      else if has_runtime
      then spawn owner counter (checked_add u64_max counter 1)
      else (err runtime_unavailable, (owner, counter))

  -- `JobOwner::start`, with `NEXT_ID` passed on.
  unfoldable pub start :
      (ℕ → Bool) → Bool → JobOwner P T E → ℕ → Result StartError ℕ × (JobOwner P T E × ℕ)
  start is_finished has_runtime owner counter =
      if owner.closed
      then (err closed, (owner, counter))
      else admit has_runtime (record owner { workers = retain is_finished owner.workers }) counter

  abbrev pub cancel_worker : Worker P T E → Worker P T E
  cancel_worker worker = record worker { control = (request_cancel worker.control).1 }

  abbrev pub close : JobOwner P T E → JobOwner P T E
  close owner = record owner { closed = true; workers = map cancel_worker owner.workers }

  abbrev pub add_late : ShutdownReport → Worker P T E → ShutdownReport
  add_late report worker = record report { unresponsive = report.unresponsive ++ (worker.id ∷ []) }

  abbrev pub add_broken : ShutdownReport → Worker P T E → ShutdownReport
  add_broken report worker = record report {
    join_failures = report.join_failures ++ (worker.id ∷ []);
  }

  -- `self.workers.remove(index)`
  abbrev pub remove_at : ℕ → List (Worker P T E) → List (Worker P T E)
  remove_at index workers = take index workers ++ drop (index + 1) workers

  -- A round on the worker at `index`, in front of the rounds that follow.
  abbrev pub join_worker :
      (ℕ → List (Worker P T E) → ShutdownReport → Result ShutdownFailure (Finished P T E))
      → ℕ
      → List (Worker P T E)
      → ShutdownReport
      → Worker P T E
      → Joined
      → Result ShutdownFailure (Finished P T E)
  join_worker loop index workers report worker returned =
      loop index (remove_at index workers) report
  join_worker loop index workers report worker broken =
      loop index (remove_at index workers) (add_broken report worker)
  join_worker loop index workers report worker late =
      loop (index + 1) workers (add_late report worker)

  -- By what stands behind the first `index` workers.
  abbrev pub join_round :
      (ℕ → List (Worker P T E) → ShutdownReport → Result ShutdownFailure (Finished P T E))
      → (ℕ → Joined)
      → ℕ
      → List (Worker P T E)
      → ShutdownReport
      → List (Worker P T E)
      → Result ShutdownFailure (Finished P T E)
  join_round loop joined index workers report [] = ok (workers, report)
  join_round loop joined index workers report (worker ∷ rest) =
      join_worker loop index workers report worker (joined worker.id)

  -- `while index < self.workers.len()`: each round takes a worker out or passes it.
  abbrev pub join_all :
      (ℕ → Joined)
      → ℕ
      → ℕ
      → List (Worker P T E)
      → ShutdownReport
      → Result ShutdownFailure (Finished P T E)
  join_all joined zero index workers report = err out_of_fuel
  join_all joined (suc fuel) index workers report =
      join_round (join_all joined fuel) joined index workers report (drop index workers)

  abbrev pub joined_owner :
      JobOwner P T E
      → Result ShutdownFailure (Finished P T E)
      → Result ShutdownFailure ShutdownReport × JobOwner P T E
  joined_owner stopped (ok (kept, report)) = (ok report, record stopped { workers = kept })
  joined_owner stopped (err failure) = (err failure, stopped)

  -- `JobOwner::shutdown`
  abbrev pub shutdown :
      Bool → (ℕ → Joined) → JobOwner P T E → Result ShutdownFailure ShutdownReport × JobOwner P T E
  shutdown has_deadline joined owner =
      let stopped = close owner in
      let empty : ShutdownReport = record { unresponsive = []; join_failures = [] } in
      let fuel = length stopped.workers + 1 in
      if has_deadline
      then joined_owner stopped (join_all joined fuel 0 stopped.workers empty)
      else (err (refused invalid_deadline), stopped)
