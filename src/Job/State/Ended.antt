-- ===== src/Job/State/Ended.antt =====
-- How a job is found once its task has ended.
use reiny.Prelude.{◌≡◌, refl, true, false, ok, err, if◌then◌else◌}
use reiny.Job.Types.{
  JobOutcome, succeeded, failed, cancelled, panicked, interrupted, JobStatus, running, cancelling,
  complete, JobSnapshot,
}
use reiny.Job.State.{
  TaskEnd, returned, unwound, dropped, complete_once, complete_job, drop_completion, end_task,
}

-- The outcome of a job of that status, by the end of its task.
abbrev pub ended_as : {T E : Type 0} → JobStatus T E → TaskEnd T E → JobOutcome T E
ended_as (complete outcome) end = outcome
ended_as running (returned (ok value) unwinds) = succeeded value
ended_as cancelling (returned (ok value) unwinds) = if unwinds then panicked else cancelled
ended_as _ (returned (err error) unwinds) = failed error
ended_as _ unwound = panicked
ended_as _ (dropped panicking) = if panicking then panicked else interrupted

module _ {P T E : Type 0} where
  ended_by :
      (s : JobSnapshot P T E) (status : JobStatus T E) (end : TaskEnd T E)
      → s.status ≡ status
      → (end_task s end).status ≡ complete (ended_as status end)
  unfolding complete_once complete_job drop_completion end_task
  ended_by s running (returned (ok value) unwinds) e = rw e refl
  ended_by s running (returned (err error) unwinds) e = rw e refl
  ended_by s running unwound e = rw e refl
  ended_by s running (dropped true) e = rw e refl
  ended_by s running (dropped false) e = rw e refl
  ended_by s cancelling (returned (ok value) true) e = rw e refl
  ended_by s cancelling (returned (ok value) false) e = rw e refl
  ended_by s cancelling (returned (err error) unwinds) e = rw e refl
  ended_by s cancelling unwound e = rw e refl
  ended_by s cancelling (dropped true) e = rw e refl
  ended_by s cancelling (dropped false) e = rw e refl
  ended_by s (complete outcome) (returned (ok value) unwinds) e = rw e refl
  ended_by s (complete outcome) (returned (err error) unwinds) e = rw e refl
  ended_by s (complete outcome) unwound e = rw e refl
  ended_by s (complete outcome) (dropped true) e = rw e refl
  ended_by s (complete outcome) (dropped false) e = rw e refl

  -- When its task has ended a job is complete, with one outcome for its status and that end: the
  -- outcome that it had if it was complete, the value or the error of its work, `Cancelled` in place
  -- of a value behind a cancellation, or `Panicked` where dropping that value unwinds, `Panicked`
  -- where the work did, and where the runtime dropped it `Interrupted`, or `Panicked` if that drop
  -- did.
  pub end_task-ended_as :
      (s : JobSnapshot P T E) (end : TaskEnd T E)
      → (end_task s end).status ≡ complete (ended_as s.status end)
  end_task-ended_as s end = ended_by s s.status end refl
