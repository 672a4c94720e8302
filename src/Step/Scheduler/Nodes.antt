-- ===== src/Step/Scheduler/Nodes.antt =====
-- How the loop over the nodes ends.
use reiny.Prelude.{
  ◌≡◌, refl, true, false, Option, none, some, List, Bytes, Map, Result, ok, err, Ends, run_each,
  run_each-Ends, get, bytes_key,
}
use reiny.Step.Types.{StepSchema, StepTick, StepInputs, StepOutputs, StepFailure, StepFailureKind}
use reiny.Step.Request.{ValidatedRequest}
use reiny.Step.Execution.{Invocation, NodeFailure, catch_node, invalid_output}
use reiny.Step.Clock.{StepScheduler}
use reiny.Step.Node.{
  request_error, failed, faulted, Outcome, received, rejected, dropped, unwound, Run, Exit,
  check_outputs, with_schema, after_node, after_invoke, node_round, run_node, collect,
  routed_values,
}

-- The fault that the guard has not yet replaced, and the failure that it would leave.
abbrev pub IsRun : {X : Type 0} → Run X → Type 0
IsRun run = (run.guard.fault ≡ none) × (run.guard.failure.kind ≡ StepFailureKind.advance_dropped)

-- A round ends the advancement by a failure, which is the fault, or by the future's end.
abbrev pub IsStop : Outcome → Option StepFailure → Type 0
IsStop (rejected (failed failure)) fault = fault ≡ some failure
IsStop dropped fault =
    (failure : StepFailure) × ((fault ≡ some failure)
      × (failure.kind ≡ StepFailureKind.advance_dropped))
IsStop unwound fault = Unit {0}
IsStop (received receipt) fault = ⊥
IsStop (rejected (request_error error)) fault = ⊥
IsStop (rejected (faulted failure)) fault = ⊥

abbrev pub IsExit : {X : Type 0} → Exit X → Type 0
IsExit exit = IsStop exit.outcome exit.fault

module _ {X : Type 0} where
  check_outputs-Ends :
      (run : Run X) (name : Bytes) (outputs : StepOutputs) (invalid : Option (Bytes × Bytes))
      → IsRun run
      → Ends IsRun IsExit (check_outputs run name outputs invalid)
  check_outputs-Ends run name outputs none is_run = is_run
  check_outputs-Ends run name outputs (some (port, detail)) is_run = refl

  with_schema-Ends :
      (run : Run X) (name : Bytes) (outputs : StepOutputs) (found : Option StepSchema)
      → IsRun run
      → Ends IsRun IsExit (with_schema run name outputs found)
  with_schema-Ends run name outputs none is_run = tt
  with_schema-Ends run name outputs (some schema) is_run =
      check_outputs-Ends run name outputs (invalid_output schema.outputs outputs) is_run

  after_node-Ends :
      (run : Run X) (name : Bytes) (nodes : Map Bytes StepSchema)
      (result : Option (Result NodeFailure StepOutputs))
      → IsRun run
      → Ends IsRun IsExit (after_node run name nodes result)
  after_node-Ends run name nodes none is_run = tt
  after_node-Ends run name nodes (some (err (kind, detail))) is_run = refl
  after_node-Ends run name nodes (some (ok outputs)) is_run =
      with_schema-Ends run name outputs (get nodes name) is_run

  after_invoke-Ends :
      (run : Run X) (name : Bytes) (nodes : Map Bytes StepSchema) (invocation : Invocation)
      → run.guard.armed ≡ true
      → IsRun run
      → Ends IsRun IsExit (after_invoke run name nodes invocation)
  after_invoke-Ends run name nodes (Invocation.abandoned true) armed is_run = tt
  after_invoke-Ends run name nodes (Invocation.abandoned false) armed is_run =
      rw armed (run.guard.failure, (refl, is_run.1))
  after_invoke-Ends run name nodes (Invocation.finished polled disposal) armed is_run =
      after_node-Ends run name nodes (catch_node polled disposal) is_run

  module _ (invoke : X → Bytes → StepTick → StepInputs → Invocation × X) where
    node_round-Ends :
        (s : StepScheduler) (request : ValidatedRequest) (run : Run X) (name : Bytes)
        (inputs : Option StepInputs)
        → IsRun run
        → Ends IsRun IsExit (node_round invoke s request run name inputs)
    node_round-Ends s request run name none is_run = tt
    node_round-Ends s request run name (some inputs) is_run =
        let called = invoke run.world name request.tick inputs in
        after_invoke-Ends _ name s.plan.graph.nodes called.0 refl is_run

    pub run_nodes-Ends :
        (s : StepScheduler) (request : ValidatedRequest) (run : Run X) (order : List Bytes)
        → IsRun run
        → Ends IsRun IsExit (run_each (run_node invoke s request) run order)
    unfolding run_node
    run_nodes-Ends s request run order is_run =
        run_each-Ends IsRun IsExit (run_node invoke s request)
          (λ before name kept.
            node_round-Ends s request before name
              (collect (routed_values s request before.outputs name s.plan.graph.inputs)) kept)
          order run is_run
