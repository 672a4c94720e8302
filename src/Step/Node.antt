-- ===== src/Step/Node.antt =====
-- A round of the loop over the nodes of `StepScheduler::advance_controlled`,
-- crates/reiny/src/step/scheduler.rs. Indexing a map at a key that it lacks unwinds.
use reiny.Prelude.{
  Bool, true, false, Option, none, some, [], ◌∷◌, ◌++◌, Bytes, Map, Result, ok, err, get, extend,
  bytes_eq, ◌==◌, bytes_key, if◌then◌else◌,
}
use reiny.Step.Values.{StepValue}
use reiny.Step.Types.{
  StepInput, StepOutput, StepSource, StepSchema, StepTick, StepInputs, StepOutputs, StepReceipt,
  StepFailureKind, StepFailure, input_key, output_key,
}
use reiny.Step.Request.{StepRequestError, ValidatedRequest}
use reiny.Step.Execution.{
  AdvanceGuard, Invocation, NodeFailure, dispatch, drop_guard, catch_node, invalid_output,
}
use reiny.Step.Clock.{StepScheduler}

-- `SchedulerError`
pub data SchedulerError : Type 0 where
  request_error : StepRequestError → SchedulerError
  failed : StepFailure → SchedulerError
  faulted : StepFailure → SchedulerError

-- An advancement returns, is dropped while a node is pending, or unwinds.
pub data Outcome : Type 0 where
  received : StepReceipt → Outcome
  rejected : SchedulerError → Outcome
  dropped : Outcome
  unwound : Outcome

-- The value of a route, none where indexing panics.
abbrev pub route_value :
    StepScheduler
    → ValidatedRequest
    → Map StepOutput StepValue
    → StepInput
    → StepSource
    → Option StepValue
route_value s request outputs input StepSource.external = get request.inputs input
route_value s request outputs input (StepSource.same_tick source) = get outputs source
route_value s request outputs input (StepSource.previous_tick source initial) =
    if s.next_index == 0 then some initial else get s.previous source

-- An entry in front of the rest of a collection, each of which may panic.
abbrev pub both_there : {K V : Type 0} → K → Option V → Option (Map K V) → Option (Map K V)
both_there key (some value) (some rest) = some ((key, value) ∷ rest)
both_there key (some value) none = none
both_there key none rest = none

-- The routes of an instance with their values, in front of `collect`.
abbrev pub routed_values :
    StepScheduler
    → ValidatedRequest
    → Map StepOutput StepValue
    → Bytes
    → Map StepInput StepSource
    → Option (Map Bytes StepValue)
routed_values s request outputs name [] = some []
routed_values s request outputs name ((input, source) ∷ rest) =
    let later = routed_values s request outputs name rest in
    if bytes_eq input.instance_name name
    then both_there input.port (route_value s request outputs input source) later
    else later

abbrev pub collect : Option (Map Bytes StepValue) → Option StepInputs
collect none = none
collect (some entries) = some (extend [] entries)

-- `node_outputs.into_iter().map(...)`
abbrev pub addressed : Bytes → StepOutputs → Map StepOutput StepValue
addressed name [] = []
addressed name ((port, value) ∷ rest) =
    (record { instance_name = name; port = port }, value) ∷ addressed name rest

-- What the loop over the nodes carries.
pub record Run (X : Type 0) : Type 0 where
  pub guard : AdvanceGuard
  pub outputs : Map StepOutput StepValue
  pub world : X

-- The end of an advancement: its outcome, the scheduler's fault and the executor's state.
pub record Exit (X : Type 0) : Type 0 where
  pub outcome : Outcome
  pub fault : Option StepFailure
  pub world : X

module _ {X : Type 0} where
  -- `return Err(guard.fail())` behind an assignment to `guard.failure`.
  abbrev pub exit_failed : StepFailure → X → Exit X
  exit_failed failure world = record {
    outcome = rejected (failed failure);
    fault = some failure;
    world = world;
  }

  -- The guard is dropped by a panic, or with the future.
  abbrev pub exit_unwound : AdvanceGuard → X → Exit X
  exit_unwound guard world = record {
    outcome = unwound;
    fault = drop_guard guard true;
    world = world;
  }

  abbrev pub exit_dropped : AdvanceGuard → X → Exit X
  exit_dropped guard world = record {
    outcome = dropped;
    fault = drop_guard guard false;
    world = world;
  }

  -- By whether the thread is panicking.
  abbrev pub exit_abandoned : Bool → AdvanceGuard → X → Exit X
  exit_abandoned true guard world = exit_unwound guard world
  exit_abandoned false guard world = exit_dropped guard world

  -- The outputs have passed: they are added, and the node is complete.
  abbrev pub complete : Run X → Bytes → StepOutputs → Run X
  complete run name outputs = record run {
    guard = record (run.guard) {
      failure = record (run.guard.failure) {
        completed = run.guard.failure.completed ++ (name ∷ []);
      };
    };
    outputs = extend run.outputs (addressed name outputs);
  }

  abbrev pub check_outputs :
      Run X → Bytes → StepOutputs → Option (Bytes × Bytes) → Result (Exit X) (Run X)
  check_outputs run name outputs none = ok (complete run name outputs)
  check_outputs run name outputs (some (port, detail)) = err (
      exit_failed
        (record (run.guard.failure) {
          kind = StepFailureKind.invalid_outputs;
          port = some port;
          detail = detail;
        })
        run.world)

  -- The outputs are checked against `&self.plan.graph.nodes[instance].outputs`.
  abbrev pub with_schema : Run X → Bytes → StepOutputs → Option StepSchema → Result (Exit X) (Run X)
  with_schema run name outputs none = err (exit_unwound run.guard run.world)
  with_schema run name outputs (some schema) =
      check_outputs run name outputs (invalid_output schema.outputs outputs)

  abbrev pub after_node :
      Run X
      → Bytes
      → Map Bytes StepSchema
      → Option (Result NodeFailure StepOutputs)
      → Result (Exit X) (Run X)
  after_node run name nodes none = err (exit_unwound run.guard run.world)
  after_node run name nodes (some (err (kind, detail))) =
      err (exit_failed (record (run.guard.failure) { kind = kind; detail = detail }) run.world)
  after_node run name nodes (some (ok outputs)) = with_schema run name outputs (get nodes name)

  abbrev pub after_invoke :
      Run X → Bytes → Map Bytes StepSchema → Invocation → Result (Exit X) (Run X)
  after_invoke run name nodes (Invocation.abandoned panicking) =
      err (exit_abandoned panicking run.guard run.world)
  after_invoke run name nodes (Invocation.finished polled disposal) =
      after_node run name nodes (catch_node polled disposal)

  module _ (invoke : X → Bytes → StepTick → StepInputs → Invocation × X) where
    -- The node is dispatched with its inputs.
    abbrev pub dispatched :
        StepScheduler → ValidatedRequest → Run X → Bytes → StepInputs → Result (Exit X) (Run X)
    dispatched s request run name inputs =
        let called = invoke run.world name request.tick inputs in
        let next = record run { guard = dispatch run.guard name; world = called.1 } in
        after_invoke next name s.plan.graph.nodes called.0

    -- A round of `for instance in &self.plan.order`.
    abbrev pub node_round :
        StepScheduler
        → ValidatedRequest
        → Run X
        → Bytes
        → Option StepInputs
        → Result (Exit X) (Run X)
    node_round s request run name none = err (exit_unwound run.guard run.world)
    node_round s request run name (some inputs) = dispatched s request run name inputs

    unfoldable pub run_node :
        StepScheduler → ValidatedRequest → Run X → Bytes → Result (Exit X) (Run X)
    run_node s request run name =
        node_round s request run name
          (collect (routed_values s request run.outputs name s.plan.graph.inputs))
