-- ===== src/Step/Clock.antt =====
-- The state of a scheduler, its construction and its clock: crates/reiny/src/step/scheduler.rs.
use reiny.Prelude.{ℕ, Option, none, some, [], Map, Result, ok, err, bytes_key}
use reiny.Step.Values.{StepValue}
use reiny.Step.Types.{
  StepOutput, StepGraph, StepPlanError, StepFailure, ClockPhase, ClockSnapshot, Duration, input_key,
  output_key,
}
use reiny.Step.Plan.{Plan, PlanFailure, refused, compile}
use reiny.Step.Request.{u64_max, checked_add}

pub record StepScheduler : Type 0 where
  pub plan : Plan
  pub epoch : ℕ
  pub next_index : ℕ
  pub time : Duration
  pub previous : Map StepOutput StepValue
  pub fault : Option StepFailure

-- `StepScheduler::new`, with `NEXT_EPOCH` passed on.
abbrev pub allocate : Plan → Duration → ℕ → Option ℕ → Result PlanFailure StepScheduler × ℕ
allocate plan initial_time counter none = (err (refused StepPlanError.epoch_exhausted), counter)
allocate plan initial_time counter (some next) = (
  ok (record {
    plan = plan;
    epoch = counter;
    next_index = 0;
    time = initial_time;
    previous = [];
    fault = none;
  }),
  next,
)

abbrev pub new_by : Result PlanFailure Plan → Duration → ℕ → Result PlanFailure StepScheduler × ℕ
new_by (err failure) initial_time counter = (err failure, counter)
new_by (ok plan) initial_time counter =
    allocate plan initial_time counter (checked_add u64_max counter 1)

unfoldable pub new : StepGraph → Duration → ℕ → Result PlanFailure StepScheduler × ℕ
new graph initial_time counter = new_by (compile graph) initial_time counter

abbrev pub clock_phase : Option StepFailure → ClockPhase
clock_phase none = ClockPhase.ready
clock_phase (some failure) = ClockPhase.faulted failure

abbrev pub clock : StepScheduler → ClockSnapshot
clock s = record {
  epoch = s.epoch;
  next_index = s.next_index;
  time = s.time;
  phase = clock_phase s.fault;
}
