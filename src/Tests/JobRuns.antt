-- ===== src/Tests/JobRuns.antt =====
-- A job on concrete operations.
use reiny.Prelude.{ℕ, ◌≡◌, refl, true, false, ok, some, [], ◌∷◌, ◌==◌, if◌then◌else◌}
use reiny.Job.Types.{JobSnapshot, cancelled, complete, cancelling}
use reiny.Job.State.{
  started, request_cancel, progress, complete_once, complete_job, drop_completion, end_task,
  returned,
}
use reiny.Job.State.Revisions.{cancels, reports, Reach, here, next, IsNext, Step-IsNext}
use reiny.Job.Owner.{JobOwner, ShutdownReport, Joined, broken, late, new_worker, shutdown}
use reiny.Job.Owner.Shutdown.{ids, IsJoined, shutdown-IsJoined}
use reiny.Job.State.Ended.{ended_as, end_task-ended_as}

-- A job that has reported 5 and is cancelled.
abbrev reporting : JobSnapshot ℕ ℕ ℕ
reporting = (progress (started 7) 5).1

abbrev stopping : JobSnapshot ℕ ℕ ℕ
stopping = (request_cancel reporting).1

reporting-IsReached : Reach (started 7) reporting
reporting-IsReached = next here (reports 5 refl)

Step-IsNext_example : IsNext reporting stopping
Step-IsNext_example = Step-IsNext 7 reporting stopping reporting-IsReached (cancels refl)

stopping_lem : stopping ≡ record {
  id = 7;
  revision = 2;
  progress = some 5;
  cancellation_requested = true;
  status = cancelling;
}
unfolding progress request_cancel
stopping_lem = refl

end_task-ended_as_example :
    (end_task stopping (returned (ok 3) false)).status
    ≡ complete (ended_as stopping.status (returned (ok 3) false))
end_task-ended_as_example = end_task-ended_as stopping (returned (ok 3) false)

-- A result that comes behind the cancellation is given up.
ended_cancelled : (end_task stopping (returned (ok 3) false)).status ≡ complete cancelled
unfolding progress request_cancel complete_once complete_job drop_completion end_task
ended_cancelled = refl

abbrev three_jobs : JobOwner ℕ ℕ ℕ
three_jobs = record {
  capacity = 3;
  closed = false;
  workers = new_worker 1 ∷ new_worker 2 ∷ new_worker 3 ∷ [];
}

-- The first is late and the second broke.
abbrev joined_by : ℕ → Joined
joined_by id = if id == 1 then late else if id == 2 then broken else Joined.returned

shutdown-IsJoined_example :
    let end = shutdown true joined_by three_jobs in
    (report : ShutdownReport) × (end.0 ≡ ok report)
    × (end.1.closed ≡ true)
    × IsJoined joined_by (ids three_jobs.workers) (end.1.workers, report)
shutdown-IsJoined_example = shutdown-IsJoined joined_by three_jobs
