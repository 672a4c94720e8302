-- ===== src/Step/Plan.antt =====
-- The compilation of a graph into an order of execution: crates/reiny/src/step/plan.rs.
pub mod Routes
pub mod Dependencies
pub mod Order
pub mod Cycles
pub mod Final
pub mod Compiled
use reiny.Prelude.{
  ℕ, zero, suc, ◌≡◌, Bool, true, false, not, ◌&&◌, Option, none, some, List, [], ◌∷◌, ◌++◌, Bytes,
  Map, Result, ok, err, refuse, ok_or, map_err, ◌>>◌, ◌>>=◌, for_each, run_each, contains_key, get,
  insert, remove, keys, set_insert, set_remove, map, length, bytes_key, to_option, if◌then◌else◌,
}
use reiny.Bindings.Names.{validate_namespace, validate_port_name}
use reiny.Bindings.Module.{is_nil}
use reiny.Step.Values.{StepType, type_eq}
use reiny.Step.Types.{
  StepInput, StepOutput, StepSchema, StepSource, StepGraph, StepPlanError, input_key,
}

pub record PlanRoute : Type 0 where
  pub output : Option StepOutput
  pub initial : Option StepType
  pub same_tick : Bool

pub record Plan : Type 0 where
  pub graph : StepGraph
  pub order : List Bytes

-- `err`s of `validate_routes`, and the end of the fuel of its last loop.
pub data PlanFailure : Type 0 where
  refused : StepPlanError → PlanFailure
  out_of_fuel : PlanFailure

abbrev pub Nodes : Type 0
Nodes = Map Bytes StepSchema

abbrev pub Routes : Type 0
Routes = Map StepInput PlanRoute

-- The nodes that each node waits for.
abbrev pub Dependencies : Type 0
Dependencies = Map Bytes (List Bytes)

-- The closure of `compile` that makes a route of a source.
abbrev pub plan_route : StepSource → PlanRoute
plan_route StepSource.external = record { output = none; initial = none; same_tick = false }
plan_route (StepSource.same_tick output) = record {
  output = some output;
  initial = none;
  same_tick = true;
}
plan_route (StepSource.previous_tick source initial) = record {
  output = some source;
  initial = some initial.step_type;
  same_tick = false;
}

abbrev pub plan_routes : Map StepInput StepSource → Routes
plan_routes [] = []
plan_routes ((input, source) ∷ rest) = (input, plan_route source) ∷ plan_routes rest

-- `.map_err(|_| failure)?`
abbrev pub or_refuse :
    {E : Type 0} → Result E (Unit {0}) → StepPlanError → Result PlanFailure (Unit {0})
or_refuse (ok done) failure = ok tt
or_refuse (err reason) failure = err (refused failure)

abbrev pub node_input : Bytes → Bytes → StepInput
node_input instance_name port = record { instance_name = instance_name; port = port }

-- A round of `for (instance, schema) in nodes`.
unfoldable pub check_node :
    Routes → Dependencies → Bytes × StepSchema → Result PlanFailure Dependencies
check_node routes dependencies (name, schema) = do
  or_refuse (validate_namespace name) (StepPlanError.invalid_instance name)
  for_each (λ port. or_refuse (validate_port_name port) (StepPlanError.invalid_port name port))
      (keys schema.inputs ++ keys schema.outputs)
  for_each
      (λ port.
        refuse (not (contains_key routes (node_input name port)))
          (refused (StepPlanError.missing_input (node_input name port))))
      (keys schema.inputs)
  ok (insert name [] dependencies)

-- `nodes.get(instance).and_then(|schema| schema.inputs.get(port))`, and the same for outputs.
abbrev pub input_type : Nodes → StepInput → Option StepType
input_type nodes input = elim (get nodes input.instance_name) [
  | none ↦ none
  | some schema ↦ get schema.inputs input.port
]

abbrev pub output_type : Nodes → StepOutput → Option StepType
output_type nodes output = elim (get nodes output.instance_name) [
  | none ↦ none
  | some schema ↦ get schema.outputs output.port
]

abbrev pub check_initial : StepInput → Option StepType → StepType → Result PlanFailure (Unit {0})
check_initial input none expected = ok tt
check_initial input (some initial) expected =
    refuse (not (type_eq initial expected))
      (refused (StepPlanError.initial_type_mismatch input expected initial))

abbrev pub or_default : Option (List Bytes) → List Bytes
or_default none = []
or_default (some sources) = sources

-- `dependencies.entry(instance).or_default().insert(source)`
abbrev pub add_dependency : Dependencies → Bytes → Bytes → Dependencies
add_dependency dependencies name source =
    insert name (set_insert source (or_default (get dependencies name))) dependencies

abbrev pub check_output :
    Nodes
    → Dependencies
    → StepInput
    → StepType
    → Bool
    → Option StepOutput
    → Result PlanFailure Dependencies
check_output nodes dependencies input expected same_tick none = ok dependencies
check_output nodes dependencies input expected same_tick (some output) = do
  actual ← ok_or (output_type nodes output) (refused (StepPlanError.unknown_source output))
  refuse (not (type_eq actual expected))
      (refused (StepPlanError.type_mismatch input expected actual))
  ok (
      if same_tick
      then add_dependency dependencies input.instance_name output.instance_name
      else dependencies)

-- A round of `for (input, route) in inputs`.
unfoldable pub check_route :
    Nodes → Dependencies → StepInput × PlanRoute → Result PlanFailure Dependencies
check_route nodes dependencies (input, route) = do
  expected ← ok_or (input_type nodes input) (refused (StepPlanError.unknown_input input))
  check_initial input route.initial expected
  check_output nodes dependencies input expected route.same_tick route.output

-- `.iter().find(|(_, sources)| sources.is_empty())`
abbrev pub find_ready : Dependencies → Option Bytes
find_ready [] = none
find_ready ((name, sources) ∷ rest) = if is_nil sources then some name else find_ready rest

-- `for sources in dependencies.values_mut() { sources.remove(&next); }`
abbrev pub release : Bytes → Dependencies → Dependencies
release next [] = []
release next ((name, sources) ∷ rest) = (name, set_remove next sources) ∷ release next rest

abbrev pub order_round :
    (Dependencies → List Bytes → Result PlanFailure (List Bytes))
    → Dependencies
    → List Bytes
    → Option Bytes
    → Result PlanFailure (List Bytes)
order_round loop dependencies order none =
    err (refused (StepPlanError.same_tick_cycle (keys dependencies)))
order_round loop dependencies order (some next) =
    loop (release next (remove next dependencies)) (order ++ (next ∷ []))

-- `while !dependencies.is_empty()`, of which each round takes one entry out.
abbrev pub order_loop : ℕ → Dependencies → List Bytes → Result PlanFailure (List Bytes)
order_loop fuel [] order = ok order
order_loop zero (entry ∷ rest) order = err out_of_fuel
order_loop (suc fuel) (entry ∷ rest) order =
    order_round (order_loop fuel) (entry ∷ rest) order (find_ready (entry ∷ rest))

abbrev pub find_order : Dependencies → Result PlanFailure (List Bytes)
find_order dependencies = order_loop (length dependencies) dependencies []

unfoldable pub validate_routes : Nodes → Routes → Result PlanFailure (List Bytes)
validate_routes nodes routes = do
  refuse (is_nil nodes) (refused StepPlanError.empty_graph)
  declared ← run_each (check_node routes) [] nodes
  dependencies ← run_each (check_route nodes) declared routes
  find_order dependencies

unfoldable pub compile : StepGraph → Result PlanFailure Plan
compile graph = do
  order ← validate_routes graph.nodes (plan_routes graph.inputs)
  ok (record { graph = graph; order = order })
