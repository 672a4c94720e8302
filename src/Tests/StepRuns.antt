-- ===== src/Tests/StepRuns.antt =====
-- The step scheduler on concrete graphs.
use reiny.Prelude.{
  suc, ℕ, ◌<◌, ◌≡◌, ◌≢◌, refl, arith, none, some, [], ◌∷◌, Bytes, ok, err, All, set_insert,
  set_remove, insert, remove, extend, bytes_eq, bytes_lt, has_space, Bool, true, false, ◌++◌,
  if◌then◌else◌, after_space, split,
}
use reiny.Bindings.Names.{segment, validate_namespace, validate_port_name}
use reiny.Step.Values.{type_eq}
use reiny.Step.Types.{StepTick, StepInputs, StepPlanError, StepFailure, StepFailureKind}
use reiny.Step.Plan.{
  refused, out_of_fuel, plan_routes, check_node, check_route, validate_routes, compile,
}
use reiny.Step.Plan.Dependencies.{same_tick_sources}
use reiny.Step.Plan.Cycles.{IsBlocked}
use reiny.Step.Plan.Compiled.{
  IsPlan, compile-IsPlan, compile-ne-out_of_fuel, compile-IsBlocked, compile-ne-same_tick_cycle,
}
use reiny.Step.Request.{validate}
use reiny.Step.Execution.{invalid_output}
use reiny.Step.Execution.{Invocation}
use reiny.Step.Clock.{StepScheduler, new}
use reiny.Step.Node.{rejected, failed, unwound, run_node}
use reiny.Step.Scheduler.{direct_commit, advance_run, advance_controlled}
use reiny.Step.Scheduler.Advance.{IsAdvanced, advance_controlled-IsAdvanced}
use reiny.Step.Scheduler.Reachable.{
  advanced, Reach, here, next, IsStuck, Reach-IsStuck, reached-ne-unwound,
}
use reiny.Tests.Graphs.{
  name_a, name_b, feedback, knot, plan_of_feedback, fresh, counting, failing, ask, value_of, out,
}

compiled_feedback : compile feedback ≡ ok plan_of_feedback
unfolding compile validate_routes check_node check_route validate_namespace validate_port_name
    segment has_space after_space split bytes_eq bytes_lt type_eq insert remove set_insert
    set_remove
compiled_feedback = refl

refused_knot : compile knot ≡ err (refused (StepPlanError.same_tick_cycle (name_a ∷ name_b ∷ [])))
unfolding compile validate_routes check_node check_route validate_namespace validate_port_name
    segment has_space after_space split bytes_eq bytes_lt type_eq insert remove set_insert
    set_remove
refused_knot = refl

compile-IsPlan_example : (plan_of_feedback.graph ≡ feedback) × IsPlan plan_of_feedback
compile-IsPlan_example = compile-IsPlan feedback plan_of_feedback compiled_feedback

compile-ne-out_of_fuel_example : compile knot ≢ err out_of_fuel
compile-ne-out_of_fuel_example = compile-ne-out_of_fuel knot

compile-IsBlocked_example :
    IsBlocked (same_tick_sources (plan_routes knot.inputs)) (name_a ∷ name_b ∷ [])
compile-IsBlocked_example = compile-IsBlocked knot (name_a ∷ name_b ∷ []) refused_knot

-- Positions in the order, of which each node's sources have lower ones.
abbrev position_of : Bytes → ℕ
position_of name = if bytes_eq name_b name then 1 else 0

rises :
    (is_b : Bool)
    → All (λ s. position_of s < (if is_b then 1 else 0)) ((if is_b then name_a ∷ [] else []) ++ [])
unfolding bytes_eq
rises true = (omega arith, tt)
rises false = tt

positions_rise :
    (n : Bytes)
    → All (λ s. position_of s < position_of n) (same_tick_sources (plan_routes feedback.inputs) n)
positions_rise n = rises (bytes_eq name_b n)

compile-ne-same_tick_cycle_example :
    compile feedback ≢ err (refused (StepPlanError.same_tick_cycle (name_b ∷ [])))
compile-ne-same_tick_cycle_example =
    compile-ne-same_tick_cycle feedback position_of (name_b ∷ []) positions_rise

new-fresh : new feedback 10 3 ≡ (ok fresh, 4)
unfolding new compile validate_routes check_node check_route validate_namespace validate_port_name
    segment has_space after_space split bytes_eq bytes_lt type_eq insert remove set_insert
    set_remove
new-fresh = refl

advance_controlled-IsAdvanced_example :
    IsAdvanced fresh 0 ask (advance_controlled counting direct_commit fresh 0 ask)
advance_controlled-IsAdvanced_example =
    advance_controlled-IsAdvanced direct_commit counting fresh 0 ask

-- A tick of the graph, behind which `b`'s output is kept for the next one.
advanced_fresh : (advance_controlled counting direct_commit fresh 0 ask).1 ≡ (
  record fresh {
    next_index = 1;
    time = 14;
    previous = (record { instance_name = name_b; port = out }, value_of 1) ∷ [];
  },
  2,
)
unfolding advance_run validate run_node invalid_output type_eq extend insert remove bytes_eq
    bytes_lt set_insert set_remove
advanced_fresh = refl

reached :
    Reach direct_commit counting fresh (advance_controlled counting direct_commit fresh 0 ask).1.0
reached = next here (advanced 0 ask refl)

reached-ne-unwound_example :
    (advance_controlled counting direct_commit
      (advance_controlled counting direct_commit fresh 0 ask).1.0
      2
      ask).0
    ≢ unwound
reached-ne-unwound_example =
    reached-ne-unwound direct_commit direct_commit counting counting feedback 10 3 4 fresh
      (advance_controlled counting direct_commit fresh 0 ask).1.0 2 ask new-fresh reached
      (λ world name tick inputs. refl) (λ receipt clock. refl)

-- A node whose future panics when it is dropped while it is pending.
abbrev panicky : ℕ → Bytes → StepTick → StepInputs → Invocation × ℕ
panicky n name tick inputs = (Invocation.abandoned true, suc n)

unwound_fresh : (advance_controlled panicky direct_commit fresh 0 ask).0 ≡ unwound
unfolding advance_run validate run_node invalid_output type_eq extend insert remove bytes_eq
    bytes_lt set_insert set_remove
unwound_fresh = refl

abbrev node_failure : StepFailure
node_failure = record {
  tick = record { epoch = 3; index = 0 };
  kind = StepFailureKind.node_error;
  instance_name = some name_a;
  port = none;
  attempted = name_a ∷ [];
  completed = [];
  detail = [];
}

-- A node that fails leaves its failure.
failed_fresh :
    advance_controlled failing direct_commit fresh 0 ask
    ≡ (rejected (failed node_failure), (record fresh { fault = some node_failure }, 1))
unfolding advance_run validate run_node invalid_output type_eq extend insert remove bytes_eq
    bytes_lt set_insert set_remove
failed_fresh = refl

abbrev faulty : StepScheduler
faulty = record fresh { fault = some node_failure }

Reach-IsStuck_example : IsStuck faulty (advance_controlled counting direct_commit faulty 0 ask).1.0
Reach-IsStuck_example =
    Reach-IsStuck direct_commit counting node_failure refl (next here (advanced 0 ask refl))
