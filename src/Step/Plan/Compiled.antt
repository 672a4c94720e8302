-- ===== src/Step/Plan/Compiled.antt =====
-- What a compiled plan is, and when the compilation of a graph fails on a cycle.
use reiny.Prelude.{
  ℕ, zero, suc, ◌<◌, ◌≤◌, arith, ◌≡◌, ◌≢◌, refl, ap, ◌∙◌, Bool, true, false, Option, none, some,
  List, [], ◌∷◌, ◌++◌, Bytes, Result, ok, err, refuse, ◌>>=◌, run_each, ok_iff, >>=-eq-ok, >>-eq-ok,
  >>=-eq-err, >>-ne-err, refuse-ne-err, ok-ne-err, ok_or_then-ne-err, for_each-ne-err,
  run_each-ne-err, All, All-contains, everywhere, keys, contains, contains_key, AreDistinct,
  bytes_key, same_key_refl, length,
}
use reiny.Bindings.Types.{BindingError}
use reiny.Bindings.Module.{is_nil}
use reiny.Step.Values.{StepType}
use reiny.Step.Types.{StepInput, StepOutput, StepSchema, StepGraph, StepPlanError}
use reiny.Step.Plan.{
  Plan, PlanRoute, PlanFailure, refused, out_of_fuel, Nodes, Routes, Dependencies, plan_routes,
  or_refuse, check_initial, check_output, check_node, check_route, find_order, validate_routes,
  compile,
}
use reiny.Step.Plan.Routes.{IsNode, IsRoute}
use reiny.Step.Plan.Dependencies.{same_tick_sources}
use reiny.Step.Plan.Order.{AreReady, order_loop-IsOrderOf, order_loop-ne-out_of_fuel}
use reiny.Step.Plan.Cycles.{IsBlocked, order_loop-IsBlocked}
use reiny.Step.Plan.Final.{IsFinal, run_each-IsFinal, IsFinal-Waits, IsFinal-Bound}

-- Nodes and routes are checked, and the order lists each node once, behind the nodes that feed it
-- within the tick.
abbrev pub IsPlan : Plan → Type 0
IsPlan plan =
    let nodes = plan.graph.nodes in
    let routes = plan_routes plan.graph.inputs in
    All (IsNode routes) nodes
    × All (IsRoute nodes) routes
    × AreReady (same_tick_sources routes) [] plan.order
    × AreDistinct plan.order
    × ((name : Bytes) → contains plan.order name ≡ contains_key nodes name)

-- A plan that `compile` returns is of the graph that it was given: its nodes and routes have passed
-- their checks, and its order lists each node once and nothing else, behind all the nodes that feed
-- it within the tick.
pub compile-IsPlan :
    (graph : StepGraph) (plan : Plan) → compile graph ≡ ok plan → (plan.graph ≡ graph) × IsPlan plan
unfolding compile validate_routes
compile-IsPlan graph plan done =
    let routes = plan_routes graph.inputs in
    let found = >>=-eq-ok (validate_routes graph.nodes routes) _ done in
    let head =
      >>-eq-ok (refuse (is_nil graph.nodes) (refused StepPlanError.empty_graph)) _ found.1 in
    let first = >>=-eq-ok (run_each (check_node routes) [] graph.nodes) _ head.1 in
    let second = >>=-eq-ok (run_each (check_route graph.nodes) first.0 routes) _ first.2 in
    let deps = second.0 in
    let final = run_each-IsFinal graph.nodes routes first.0 deps first.1 second.1 in
    let order =
      order_loop-IsOrderOf (same_tick_sources routes) (length deps) deps [] found.0 second.2
        (IsFinal-Waits graph.nodes routes deps final) final.1.1.0.0 in
    let same : plan ≡ record { graph = graph; order = order.0 } =
      (ok_iff _ plan).0 found.2 ∙ ap (λ o. record { graph = graph; order = o }) order.1 in
    rw same
      (refl, (final.0, final.1.0, order.2, order.3, λ name. order.4 name ∙ final.1.1.0.1.1 name))

-- The errors that only the last loop returns.
abbrev is_late : PlanFailure → Bool
is_late (refused (StepPlanError.same_tick_cycle names)) = true
is_late out_of_fuel = true
is_late _ = false

module _ (e : PlanFailure) (late : is_late e ≡ true) where
  early-ne-late : (f : PlanFailure) → is_late f ≡ false → f ≢ e
  early-ne-late f early = λ same. let both = ap is_late same in cc

  or_refuse-ne-late :
      (r : Result BindingError (Unit {0})) (failure : StepPlanError)
      → is_late (refused failure) ≡ false
      → or_refuse r failure ≢ err e
  or_refuse-ne-late (ok done) failure early = λ h. cc
  or_refuse-ne-late (err reason) failure early =
      λ h. let same : refused failure ≡ e = cc in early-ne-late (refused failure) early same

  check_node-ne-late :
      (routes : Routes) (deps : Dependencies) (node : Bytes × StepSchema)
      → check_node routes deps node ≢ err e
  unfolding check_node
  check_node-ne-late routes deps (name, schema) = >>-ne-err _ _ (or_refuse-ne-late _ _ refl) (
      >>-ne-err _ _
        (for_each-ne-err _ (keys schema.inputs ++ keys schema.outputs)
          (everywhere _ (λ port. or_refuse-ne-late _ _ refl)))
        (>>-ne-err _ _
          (for_each-ne-err _ (keys schema.inputs)
            (everywhere _ (λ port. refuse-ne-err _ _ (early-ne-late _ refl))))
          (ok-ne-err _)))

  check_initial-ne-late :
      (input : StepInput) (initial : Option StepType) (expected : StepType)
      → check_initial input initial expected ≢ err e
  check_initial-ne-late input none expected = λ h. cc
  check_initial-ne-late input (some initial) expected = refuse-ne-err _ _ (early-ne-late _ refl)

  check_output-ne-late :
      (nodes : Nodes) (deps : Dependencies) (input : StepInput) (expected : StepType)
      (same_tick : Bool) (output : Option StepOutput)
      → check_output nodes deps input expected same_tick output ≢ err e
  check_output-ne-late nodes deps input expected same_tick none = λ h. cc
  check_output-ne-late nodes deps input expected same_tick (some output) =
      search (ok_or_then-ne-err, >>-ne-err, refuse-ne-err, ok-ne-err, early-ne-late)

  check_route-ne-late :
      (nodes : Nodes) (deps : Dependencies) (route : StepInput × PlanRoute)
      → check_route nodes deps route ≢ err e
  unfolding check_route
  check_route-ne-late nodes deps (input, route) =
      search
        (ok_or_then-ne-err, >>-ne-err, early-ne-late, check_initial-ne-late, check_output-ne-late)

  compile_failed :
      (order : Result PlanFailure (List Bytes)) (graph : StepGraph)
      → (order >>= λ found. ok (let plan : Plan = record { graph = graph; order = found } in plan))
        ≡ err e
      → order ≡ err e
  compile_failed (ok found) graph failed = cc
  compile_failed (err failure) graph failed = let same : failure ≡ e = cc in ap err same

  -- Such an error comes from the search for an order, on final dependencies.
  late_by :
      (graph : StepGraph)
      → compile graph ≡ err e
      → (deps : Dependencies) × IsFinal graph.nodes (plan_routes graph.inputs) deps
        × (find_order deps ≡ err e)
  unfolding compile validate_routes
  late_by graph failed =
      let routes = plan_routes graph.inputs in
      let found = compile_failed (validate_routes graph.nodes routes) graph failed in
      let head =
        >>=-eq-err (refuse (is_nil graph.nodes) (refused StepPlanError.empty_graph)) _ found
          (refuse-ne-err _ _ (early-ne-late _ refl)) in
      let first =
        >>=-eq-err (run_each (check_node routes) [] graph.nodes) _ head.2
          (run_each-ne-err (check_node routes) [] graph.nodes (check_node-ne-late routes)) in
      let second =
        >>=-eq-err (run_each (check_route graph.nodes) first.0 routes) find_order first.2 (
          run_each-ne-err (check_route graph.nodes) first.0 routes
            (check_route-ne-late graph.nodes)) in
      (second.0, run_each-IsFinal graph.nodes routes first.0 second.0 first.1 second.1, second.2)

-- `compile` always ends: the loop that orders the nodes ends within one round for each node.
pub compile-ne-out_of_fuel : (graph : StepGraph) → compile graph ≢ err out_of_fuel
compile-ne-out_of_fuel graph = λ failed.
    let last = late_by out_of_fuel refl graph failed in
    order_loop-ne-out_of_fuel (length last.0) last.0 [] (omega arith) last.2

-- A cycle is reported of at least one node, and each of the nodes that are named is fed by one of
-- them within the tick.
pub compile-IsBlocked :
    (graph : StepGraph) (names : List Bytes)
    → compile graph ≡ err (refused (StepPlanError.same_tick_cycle names))
    → IsBlocked (same_tick_sources (plan_routes graph.inputs)) names
compile-IsBlocked graph names failed =
    let routes = plan_routes graph.inputs in
    let last = late_by (refused (StepPlanError.same_tick_cycle names)) refl graph failed in
    let blocked =
      order_loop-IsBlocked (same_tick_sources routes) (length last.0) last.0 []
        (StepPlanError.same_tick_cycle names) last.2
        (IsFinal-Bound graph.nodes routes last.0 last.1) in
    let same : names ≡ blocked.0 = cc in rw same blocked.2

-- Blocked nodes have no ranks: each would be fed by one of a lower rank.
descend :
    (sources : Bytes → List Bytes) (rank : Bytes → ℕ) (names : List Bytes) (fuel : ℕ) (name : Bytes)
    → All (λ n. (s : Bytes) × (contains names s ≡ true) × (contains (sources n) s ≡ true)) names
    → ((n : Bytes) → All (λ s. rank s < rank n) (sources n))
    → contains names name ≡ true
    → fuel ≤ rank name
descend sources rank names zero name blocked ranked held = omega arith
descend sources rank names (suc fuel) name blocked ranked held =
    let feeder = All-contains _ names name blocked held in
    let lower =
      All-contains (λ s. rank s < rank name) (sources name) feeder.0 (ranked name) feeder.2 in
    let below = descend sources rank names fuel feeder.0 blocked ranked feeder.1 in
    omega (arith, lower, below)

-- A graph with ranks that rise along every route within the tick is not refused for a cycle.
pub compile-ne-same_tick_cycle :
    (graph : StepGraph) (rank : Bytes → ℕ) (names : List Bytes)
    → ((n : Bytes) → All (λ s. rank s < rank n) (same_tick_sources (plan_routes graph.inputs) n))
    → compile graph ≢ err (refused (StepPlanError.same_tick_cycle names))
compile-ne-same_tick_cycle graph rank [] ranked =
    λ failed. let nothing = (compile-IsBlocked graph [] failed).0 in cc
compile-ne-same_tick_cycle graph rank (name ∷ more) ranked = λ failed.
    let sources = same_tick_sources (plan_routes graph.inputs) in
    let blocked = (compile-IsBlocked graph (name ∷ more) failed).1 in
    let held : contains (name ∷ more) name ≡ true = rw (same_key_refl name) refl in
    let far = descend sources rank (name ∷ more) (suc (rank name)) name blocked ranked held in
    omega (arith, far)
