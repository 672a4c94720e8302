-- ===== src/Job/State.antt =====
-- The operations of crates/reiny/src/job/state.rs, and the end of the task of `JobOwner::start`. Each
-- modifies the snapshot under the lock of its channel, so that it is one step.
pub mod Revisions
pub mod Ended
use reiny.Prelude.{
  ℕ, ◌+◌, ◌-◌, Bool, true, false, ◌&&◌, Option, none, some, Result, ok, err, leb, if◌then◌else◌,
}
use reiny.Step.Request.{u64_max, checked_add}
use reiny.Job.Types.{
  JobOutcome, succeeded, failed, cancelled, panicked, interrupted, JobStatus, running, cancelling,
  complete, JobSnapshot, CancelRequest, requested, already_requested, finished,
}

abbrev pub saturating_add : ℕ → ℕ → ℕ
saturating_add a b = if leb (a + b) u64_max then a + b else u64_max

-- The revision that `progress` reserves, none where only cancellation and completion are left.
abbrev pub next_revision : Option ℕ → Option ℕ
next_revision none = none
next_revision (some next) = if leb next (u64_max - 2) then some next else none

module _ {P T E : Type 0} where
  -- The snapshot that `JobOwner::start` publishes.
  abbrev pub started : ℕ → JobSnapshot P T E
  started id = record {
    id = id;
    revision = 0;
    progress = none;
    cancellation_requested = false;
    status = running;
  }

  abbrev pub cancel_at : JobSnapshot P T E → JobStatus T E → CancelRequest × JobSnapshot P T E
  cancel_at s running = (
    requested,
    record s {
      status = cancelling;
      cancellation_requested = true;
      revision = saturating_add s.revision 1;
    },
  )
  cancel_at s cancelling = (already_requested, s)
  cancel_at s (complete outcome) = (finished, s)

  unfoldable pub request_cancel : JobSnapshot P T E → CancelRequest × JobSnapshot P T E
  request_cancel s = cancel_at s s.status

  abbrev pub report_at : JobSnapshot P T E → P → Option ℕ → Bool × JobSnapshot P T E
  report_at s value none = (false, s)
  report_at s value (some next) = (true, record s { progress = some value; revision = next })

  abbrev pub progress_at : JobSnapshot P T E → P → JobStatus T E → Bool × JobSnapshot P T E
  progress_at s value running = report_at s value (next_revision (checked_add u64_max s.revision 1))
  progress_at s value cancelling = (false, s)
  progress_at s value (complete outcome) = (false, s)

  unfoldable pub progress : JobSnapshot P T E → P → Bool × JobSnapshot P T E
  progress s value = progress_at s value s.status

  abbrev pub terminate : JobSnapshot P T E → JobOutcome T E → JobSnapshot P T E
  terminate s outcome = record s {
    status = complete outcome;
    revision = saturating_add s.revision 1;
  }

  -- The closure of `complete`, with what it leaves to be discarded.
  abbrev pub complete_at :
      JobSnapshot P T E
      → JobOutcome T E
      → JobStatus T E
      → JobSnapshot P T E × Option (JobOutcome T E)
  complete_at s outcome running = (terminate s outcome, none)
  complete_at s (succeeded value) cancelling = (s, some (succeeded value))
  complete_at s outcome cancelling = (terminate s outcome, none)
  complete_at s outcome (complete before) = (s, none)

  unfoldable pub complete_once :
      JobSnapshot P T E → JobOutcome T E → JobSnapshot P T E × Option (JobOutcome T E)
  complete_once s outcome = complete_at s outcome s.status

  -- `drop(discarded); self.complete(Cancelled)`, with whether the drop unwinds.
  abbrev pub discard : Bool → JobSnapshot P T E → Option (JobOutcome T E) → Bool × JobSnapshot P T E
  discard unwinds s none = (false, s)
  discard true s (some outcome) = (true, s)
  discard false s (some outcome) = (false, (complete_once s cancelled).0)

  -- `State::complete`: whether it unwinds, and the snapshot.
  unfoldable pub complete_job : Bool → JobSnapshot P T E → JobOutcome T E → Bool × JobSnapshot P T E
  complete_job unwinds s outcome =
      let once = complete_once s outcome in discard unwinds once.0 once.1

  -- `Completion::drop`, for a thread that is panicking or not.
  unfoldable pub drop_completion : Bool → JobSnapshot P T E → JobSnapshot P T E
  drop_completion panicking s =
      (complete_job false s (if panicking then panicked else interrupted)).1

abbrev pub outcome_of : {T E : Type 0} → Result E T → JobOutcome T E
outcome_of (ok value) = succeeded value
outcome_of (err error) = failed error

-- How the task of a job ends: the work returns, and the drop of a discarded value unwinds or not; the
-- work panics; or the runtime drops the task, and the drop of the work's future panics or not.
pub data TaskEnd (T E : Type 0) : Type 0 where
  returned : Result E T → Bool → TaskEnd T E
  unwound : TaskEnd T E
  dropped : Bool → TaskEnd T E

-- The body of the task that `start` spawns, from the end of the work on.
unfoldable pub end_task : {P T E : Type 0} → JobSnapshot P T E → TaskEnd T E → JobSnapshot P T E
end_task s (returned result unwinds) =
    let done = complete_job unwinds s (outcome_of result) in drop_completion done.0 done.1
end_task s unwound = drop_completion true s
end_task s (dropped panicking) = drop_completion panicking s
