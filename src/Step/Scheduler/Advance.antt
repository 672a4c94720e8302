-- ===== src/Step/Scheduler/Advance.antt =====
-- What an advancement does to the scheduler, by its outcome.
use reiny.Prelude.{
  true, false, inl, inr, ◌⊎◌, suc, ◌+◌, ◌≤◌, ◌<◌, arith, ◌≡◌, refl, ap, Option, none, some, [],
  Bytes, Map, Result, ok, err, Ends, run_each, extend,
}
use reiny.Step.Values.{StepValue}
use reiny.Step.Types.{
  StepOutput, StepTick, StepInputs, StepReceipt, StepFailure, StepFailureKind, ClockSnapshot,
  output_key,
}
use reiny.Step.Request.{
  StepRequest, RequestFailure, ValidatedRequest, u64_max, duration_max, validate,
}
use reiny.Step.Request.Accepted.{tick_at, validate-eq-ok}
use reiny.Step.Execution.{Verdict, Invocation}
use reiny.Step.Clock.{StepScheduler, clock}
use reiny.Step.Node.{
  request_error, failed, faulted, Outcome, received, rejected, dropped, unwound, Run, Exit,
  run_node,
}
use reiny.Step.Scheduler.{
  Advanced, booked, stopped, committed, commit, after_nodes, start_run, after_request, new_books,
  unless_faulted, advance_run, advance_controlled, delayed_outputs,
}
use reiny.Step.Scheduler.Nodes.{IsRun, IsStop, IsExit, run_nodes-Ends}

-- The tick is committed, within the range of its clock: the next index and the time go on by it.
abbrev pub IsBooked : StepScheduler → StepRequest → StepScheduler → Type 0
IsBooked s request after =
    (0 < request.dt)
    × ((after.next_index ≡ suc s.next_index) × (after.next_index ≤ u64_max))
    × ((after.time ≡ s.time + request.dt) × (after.time ≤ duration_max))
    × (after.fault ≡ none)
    × (after.epoch ≡ s.epoch)
    × (after.plan ≡ s.plan)

abbrev pub IsCommitted : StepScheduler → StepRequest → StepReceipt → StepScheduler → Type 0
IsCommitted s request receipt after =
    (receipt.tick ≡ tick_at (clock s) request) × IsBooked s request after

-- By outcome: a receipt commits; a rejected request and a faulted scheduler leave everything as it
-- was, the executor included; a failed or dropped advancement leaves a fault and nothing else,
-- and one that unwinds as well, unless it was the commit that panicked behind the bookkeeping.
abbrev pub IsAdvanced :
    {X : Type 0} → StepScheduler → X → StepRequest → Outcome × (StepScheduler × X) → Type 0
IsAdvanced s world request (received receipt, (after, left)) =
    (s.fault ≡ none) × IsCommitted s request receipt after
IsAdvanced s world request (rejected (request_error error), (after, left)) =
    (s.fault ≡ none) × ((after ≡ s) × (left ≡ world))
IsAdvanced s world request (rejected (faulted failure), (after, left)) =
    (s.fault ≡ some failure) × ((after ≡ s) × (left ≡ world))
IsAdvanced s world request (rejected (failed failure), (after, left)) =
    (s.fault ≡ none) × (after ≡ record s { fault = some failure })
IsAdvanced s world request (dropped, (after, left)) =
    (s.fault ≡ none)
    × ((failure : StepFailure) × ((after ≡ record s { fault = some failure })
          × (failure.kind ≡ StepFailureKind.advance_dropped)))
IsAdvanced s world request (unwound, (after, left)) =
    (s.fault ≡ none) × ((after ≡ record s { fault = after.fault }) ⊎ IsBooked s request after)

module _ {X : Type 0} (control : StepReceipt → ClockSnapshot → Verdict)
    (invoke : X → Bytes → StepTick → StepInputs → Invocation × X) where
  abbrev result_of : StepScheduler → Advanced X → Outcome × (StepScheduler × X)
  result_of s end = (end.exit.outcome, (booked s end.exit.fault end.books, end.exit.world))

  exit_by :
      (s : StepScheduler) (world : X) (request : StepRequest) (exit : Exit X)
      → s.fault ≡ none
      → IsExit exit
      → IsAdvanced s world request (result_of s (stopped exit))
  exit_by s world request exit unfaulted is_exit =
      outcome_by exit.outcome exit.fault exit.world is_exit
    where
      outcome_by :
          (outcome : Outcome) (fault : Option StepFailure) (left : X)
          → IsStop outcome fault
          → IsAdvanced s world request (outcome, (booked s fault none, left))
      outcome_by (rejected (failed failure)) fault left stop =
          (unfaulted, ap (λ f. booked s f none) stop)
      outcome_by dropped fault left stop =
          (unfaulted, (stop.0, (ap (λ f. booked s f none) stop.1.0, stop.1.1)))
      outcome_by unwound fault left stop = (unfaulted, inl refl)
      outcome_by (received receipt) fault left stop = absurd stop
      outcome_by (rejected (request_error error)) fault left stop = absurd stop
      outcome_by (rejected (faulted failure)) fault left stop = absurd stop

  module _ (s : StepScheduler) (world : X) (request : StepRequest) (valid : ValidatedRequest)
      (unfaulted : s.fault ≡ none) (accepted : validate request s.plan (clock s) ≡ ok valid) where
    booked_by :
        (fault : Option StepFailure) (previous : Map StepOutput StepValue)
        → fault ≡ none
        → IsBooked s request (booked s fault (some (new_books valid previous)))
    booked_by fault previous cleared =
        let facts = validate-eq-ok request s.plan (clock s) valid accepted in
        let index = ap (λ v. v.next_index) facts.3 in
        let end = ap (λ v. v.tick.end) facts.3 in
        (
          facts.0,
          (index, omega (arith, index, facts.1.1)),
          (end, omega (arith, end, facts.1.0)),
          cleared,
          refl,
          refl,
        )

    committed_by :
        (run : Run X) (previous : Map StepOutput StepValue) (verdict : Verdict)
        → IsRun run
        → IsAdvanced s world request (
            result_of s (
              committed valid run previous
                (record { tick = valid.tick; outputs = run.outputs })
                verdict))
    committed_by run previous (Verdict.refused kind) is_run = (unfaulted, refl)
    committed_by run previous (Verdict.panicked false) is_run = (unfaulted, inl refl)
    committed_by run previous (Verdict.panicked true) is_run =
        (unfaulted, inr (booked_by run.guard.fault previous is_run.0))
    committed_by run previous Verdict.applied is_run =
        let facts = validate-eq-ok request s.plan (clock s) valid accepted in
        let tick = ap (λ v. v.tick) facts.3 in
        (unfaulted, (tick, booked_by run.guard.fault previous is_run.0))

    commit_by :
        (run : Run X) (previous : Option (Map StepOutput StepValue))
        → IsRun run
        → IsAdvanced s world request (result_of s (commit control s valid run previous))
    commit_by run none is_run = (unfaulted, inl refl)
    commit_by run (some previous) is_run = committed_by run (extend [] previous) _ is_run

    nodes_by :
        (ran : Result (Exit X) (Run X))
        → Ends IsRun IsExit ran
        → IsAdvanced s world request (result_of s (after_nodes control s valid ran))
    nodes_by (err exit) ends = exit_by s world request exit unfaulted ends
    nodes_by (ok run) ends = commit_by run (delayed_outputs run.outputs s.plan.graph.inputs) ends

  request_by :
      (s : StepScheduler) (world : X) (request : StepRequest)
      (checked : Result RequestFailure ValidatedRequest)
      → s.fault ≡ none
      → validate request s.plan (clock s) ≡ checked
      → IsAdvanced s world request (result_of s (after_request control invoke s world checked))
  request_by s world request (err RequestFailure.unwound) unfaulted e = (unfaulted, inl refl)
  request_by s world request (err (RequestFailure.rejected error)) unfaulted e =
      (unfaulted, (refl, refl))
  request_by s world request (ok valid) unfaulted e =
      nodes_by s world request valid unfaulted e
        (run_each (run_node invoke s valid) (start_run control invoke s valid world) s.plan.order)
        (run_nodes-Ends invoke s valid (start_run control invoke s valid world) s.plan.order
          (unfaulted, refl))

  fault_by :
      (s : StepScheduler) (world : X) (request : StepRequest) (fault : Option StepFailure)
      → s.fault ≡ fault
      → IsAdvanced s world request
          (result_of s (unless_faulted control invoke s world request fault))
  fault_by s world request (some failure) e = (e, (refl, refl))
  fault_by s world request none e =
      request_by s world request (validate request s.plan (clock s)) e refl

  -- By its outcome, an advancement that returns a receipt moves an unfaulted clock by one index and
  -- by `dt`, within their ranges; a rejected request and a faulted scheduler leave the scheduler and
  -- the executor as they were; one that fails or is dropped leaves its failure as the fault, and one
  -- that unwinds at most a fault, and nothing else changes, except where the commit panicked behind
  -- the bookkeeping, which then moved the clock of an unfaulted scheduler as with a receipt.
  pub advance_controlled-IsAdvanced :
      (s : StepScheduler) (world : X) (request : StepRequest)
      → IsAdvanced s world request (advance_controlled invoke control s world request)
  unfolding advance_run
  advance_controlled-IsAdvanced s world request = fault_by s world request s.fault refl
