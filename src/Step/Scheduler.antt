-- ===== src/Step/Scheduler.antt =====
-- The scheduler: crates/reiny/src/step/scheduler.rs. The executor is a function that passes its own
-- state on, and `control` tells how the `Commit` ends.
pub mod Nodes
pub mod Produced
pub mod Routed
pub mod Stored
pub mod Advance
pub mod Total
pub mod Reachable
use reiny.Prelude.{
  ℕ, suc, Bool, true, false, not, Option, none, some, List, [], ◌∷◌, ◌++◌, Bytes, Map, codes,
  Result, ok, err, ok_or, get, insert, run_each, extend, bytes_eq, ◌==◌, bytes_key, if◌then◌else◌,
}
use reiny.Step.Values.{StepType, StepValue}
use reiny.Step.Types.{
  StepInput, StepOutput, StepSource, StepSchema, StepGraph, StepPlanError, StepId, StepTick,
  StepInputs, StepOutputs, StepReceipt, StepFailureKind, StepFailure, ClockPhase, ClockSnapshot,
  Duration, input_key, output_key,
}
use reiny.Step.Plan.{Plan, PlanFailure, refused, compile}
use reiny.Step.Request.{
  StepRequest, StepRequestError, RequestFailure, ValidatedRequest, u64_max, checked_add, validate,
}
use reiny.Step.Execution.{
  Verdict, AdvanceGuard, Invocation, NodeFailure, Polled, Payload, new_guard, dispatch, fail,
  drop_guard, catch_node, invalid_output,
}
use reiny.Step.Clock.{StepScheduler, clock}
use reiny.Step.Node.{
  SchedulerError, request_error, failed, faulted, Outcome, received, rejected, dropped, unwound,
  Run, Exit, both_there, exit_failed, exit_unwound, run_node,
}

-- The outputs that the next tick may read, none where indexing panics.
abbrev pub delayed_outputs :
    Map StepOutput StepValue → Map StepInput StepSource → Option (Map StepOutput StepValue)
delayed_outputs outputs [] = some []
delayed_outputs outputs ((input, StepSource.previous_tick source initial) ∷ rest) =
    both_there source (get outputs source) (delayed_outputs outputs rest)
delayed_outputs outputs ((input, StepSource.external) ∷ rest) = delayed_outputs outputs rest
delayed_outputs outputs ((input, StepSource.same_tick source) ∷ rest) = delayed_outputs outputs rest

-- The committed fields.
pub record Books : Type 0 where
  pub next_index : ℕ
  pub time : Duration
  pub previous : Map StepOutput StepValue

-- What an advancement leaves: its end, and the books where they were committed.
pub record Advanced (X : Type 0) : Type 0 where
  pub exit : Exit X
  pub books : Option Books

-- What the closure that `commit` is given assigns.
abbrev pub new_books : ValidatedRequest → Map StepOutput StepValue → Books
new_books request previous = record {
  next_index = request.next_index;
  time = request.tick.end;
  previous = previous;
}

module _ {X : Type 0} where
  abbrev pub stopped : Exit X → Advanced X
  stopped exit = record { exit = exit; books = none }

  abbrev pub committed :
      ValidatedRequest → Run X → Map StepOutput StepValue → StepReceipt → Verdict → Advanced X
  committed request run previous receipt Verdict.applied = record {
    exit = record { outcome = received receipt; fault = run.guard.fault; world = run.world };
    books = some (new_books request previous);
  }
  committed request run previous receipt (Verdict.panicked true) = record {
    exit = exit_unwound (record (run.guard) { armed = false }) run.world;
    books = some (new_books request previous);
  }
  committed request run previous receipt (Verdict.panicked false) =
      stopped (exit_unwound run.guard run.world)
  committed request run previous receipt (Verdict.refused kind) = stopped (
      exit_failed
        (record (run.guard.failure) {
          kind = kind;
          detail = codes "host rejected bookkeeping commit; effects may persist";
        })
        run.world)

  module _ (control : StepReceipt → ClockSnapshot → Verdict) where
    abbrev pub commit :
        StepScheduler → ValidatedRequest → Run X → Option (Map StepOutput StepValue) → Advanced X
    commit s request run none = stopped (exit_unwound run.guard run.world)
    commit s request run (some previous) =
        let receipt : StepReceipt = record { tick = request.tick; outputs = run.outputs } in
        let next : ClockSnapshot = record {
          epoch = s.epoch;
          next_index = request.next_index;
          time = request.tick.end;
          phase = ClockPhase.ready;
        } in
        committed request run (extend [] previous) receipt (control receipt next)

    abbrev pub after_nodes : StepScheduler → ValidatedRequest → Result (Exit X) (Run X) → Advanced X
    after_nodes s request (err exit) = stopped exit
    after_nodes s request (ok run) =
        commit s request run (delayed_outputs run.outputs s.plan.graph.inputs)

    module _ (invoke : X → Bytes → StepTick → StepInputs → Invocation × X) where
      abbrev pub start_run : StepScheduler → ValidatedRequest → X → Run X
      start_run s request world = record {
        guard = new_guard s.fault request.tick.id;
        outputs = [];
        world = world;
      }

      abbrev pub after_request :
          StepScheduler → X → Result RequestFailure ValidatedRequest → Advanced X
      after_request s world (err RequestFailure.unwound) =
          stopped (record { outcome = unwound; fault = s.fault; world = world })
      after_request s world (err (RequestFailure.rejected error)) =
          stopped
            (record { outcome = rejected (request_error error); fault = s.fault; world = world })
      after_request s world (ok request) =
          after_nodes s request
            (run_each (run_node invoke s request) (start_run s request world) s.plan.order)

      abbrev pub unless_faulted : StepScheduler → X → StepRequest → Option StepFailure → Advanced X
      unless_faulted s world request (some failure) =
          stopped (record { outcome = rejected (faulted failure); fault = s.fault; world = world })
      unless_faulted s world request none =
          after_request s world (validate request s.plan (clock s))

      unfoldable pub advance_run : StepScheduler → X → StepRequest → Advanced X
      advance_run s world request = unless_faulted s world request s.fault

-- The fields behind an advancement.
abbrev pub booked : StepScheduler → Option StepFailure → Option Books → StepScheduler
booked s fault none = record s { fault = fault }
booked s fault (some books) = record s {
  next_index = books.next_index;
  time = books.time;
  previous = books.previous;
  fault = fault;
}

-- `DirectCommit`
abbrev pub direct_commit : StepReceipt → ClockSnapshot → Verdict
direct_commit receipt next = Verdict.applied

module _ {X : Type 0} (invoke : X → Bytes → StepTick → StepInputs → Invocation × X) where
  -- `advance_controlled`: the outcome, the scheduler and the executor's state.
  abbrev pub advance_controlled :
      (StepReceipt → ClockSnapshot → Verdict)
      → StepScheduler
      → X
      → StepRequest
      → Outcome × (StepScheduler × X)
  advance_controlled control s world request =
      let end = advance_run control invoke s world request in
      (end.exit.outcome, (booked s end.exit.fault end.books, end.exit.world))

  abbrev pub advance : StepScheduler → X → StepRequest → Outcome × (StepScheduler × X)
  advance s world request = advance_controlled direct_commit s world request

abbrev pub relabelled : StepFailure → StepFailureKind → StepFailure
relabelled failure StepFailureKind.advance_dropped = record failure {
  detail = codes "host interrupted advancement; component effects may persist";
}
relabelled failure kind = failure

-- `interrupted`
abbrev pub interrupted_failure : StepFailureKind → StepFailure → StepFailure
interrupted_failure kind failure = record (relabelled failure failure.kind) { kind = kind }

abbrev pub interrupted : StepScheduler → StepFailureKind → Option StepFailure × StepScheduler
interrupted s kind = elim s.fault [
  | none ↦ (none, s)
  | some failure ↦
      let changed = interrupted_failure kind failure in
      (some changed, record s { fault = some changed })
]
