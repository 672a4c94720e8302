-- ===== src/Step/Scheduler/Routed.antt =====
-- The values that the routes of a node look up are there.
use mathlib.Core.Path.{subst}
use reiny.Prelude.{
  ◌≡◌, ◌⊎◌, refl, Bool, true, false, Option, none, some, List, [], ◌∷◌, Bytes, Map, All,
  All-contains, All-of_append, get, contains, is_some, Bool-cases, inl, inr, bytes_eq, bytes_key,
  if◌then◌else◌, ◌==◌, ==_iff, ℕ,
}
use reiny.Step.Values.{StepType, StepValue}
use reiny.Step.Types.{StepInput, StepOutput, StepSource, input_key, output_key}
use reiny.Step.Plan.{Nodes, plan_route, plan_routes}
use reiny.Step.Plan.Routes.{IsOutput, IsRoute}
use reiny.Step.Plan.Dependencies.{route_sources, same_tick_sources}
use reiny.Step.Request.{ValidatedRequest}
use reiny.Step.Clock.{StepScheduler}
use reiny.Step.Node.{both_there, route_value, routed_values}
use reiny.Step.Scheduler.Produced.{Outputs, IsProduced, produced_by}

abbrev pub Inputs : Type 0
Inputs = Map StepInput StepSource

-- The request has a value for an external route, and the store one for a delayed route.
abbrev pub IsSupplied : Map StepInput StepValue → StepInput × StepSource → Type 0
IsSupplied supplied (input, StepSource.external) = is_some (get supplied input) ≡ true
IsSupplied supplied (input, StepSource.same_tick source) = Unit {0}
IsSupplied supplied (input, StepSource.previous_tick source initial) = Unit {0}

abbrev pub IsHeld : Outputs → StepInput × StepSource → Type 0
IsHeld previous (input, StepSource.external) = Unit {0}
IsHeld previous (input, StepSource.same_tick source) = Unit {0}
IsHeld previous (input, StepSource.previous_tick source initial) =
    is_some (get previous source) ≡ true

-- The first tick takes the initial values.
abbrev pub IsStored : StepScheduler → Type 0
IsStored s = (s.next_index ≡ 0) ⊎ All (IsHeld s.previous) s.plan.graph.inputs

there_by :
    {K V : Type 0} (key : K) (value : Option V) (rest : Option (Map K V))
    → is_some value ≡ true
    → is_some rest ≡ true
    → is_some (both_there key value rest) ≡ true
there_by key (some value) (some rest) v r = refl
there_by key (some value) none v r = cc
there_by key none rest v r = cc

initially : (n : ℕ) → n ≡ 0 → (n == 0) ≡ true
initially n e = (==_iff n 0).1 e

-- A delayed value is the initial one or stored.
delayed_value :
    (first : Bool) (initial : StepValue) (stored : Option StepValue)
    → (first ≡ true) ⊎ (is_some stored ≡ true)
    → is_some (if first then some initial else stored) ≡ true
delayed_value true initial stored there = refl
delayed_value false initial stored (inl first) = cc
delayed_value false initial stored (inr held) = held

module _ (s : StepScheduler) (request : ValidatedRequest) (outputs : Outputs) (nodes : Nodes)
    (done : List Bytes) (name : Bytes) (produced : All (IsProduced nodes outputs) done) where
  -- The source of a same-tick route has produced it.
  fed_by :
      (source : StepOutput) (expected : StepType)
      → IsOutput nodes (some source) expected
      → contains done source.instance_name ≡ true
      → is_some (get outputs source) ≡ true
  fed_by source expected is_output before =
      produced_by nodes outputs source is_output.0
        (All-contains (IsProduced nodes outputs) done source.instance_name produced before)
        is_output.1.0

  value_by :
      (input : StepInput) (source : StepSource)
      → bytes_eq input.instance_name name ≡ true
      → IsRoute nodes (input, plan_route source)
      → IsSupplied request.inputs (input, source)
      → (s.next_index ≡ 0) ⊎ IsHeld s.previous (input, source)
      → All
          (λ x. contains done x ≡ true)
          (route_sources input.instance_name
            (plan_route source).same_tick
            (plan_route source).output
            name)
      → is_some (route_value s request outputs input source) ≡ true
  value_by input StepSource.external mine route supplied stored before = supplied
  value_by input (StepSource.same_tick source) mine route supplied stored before =
      let first : All (λ x. contains done x ≡ true) (source.instance_name ∷ []) =
        subst (λ b. All (λ x. contains done x ≡ true) (if b then source.instance_name ∷ [] else []))
          mine before in
      fed_by source route.0 route.1.1.1 first.0
  value_by input (StepSource.previous_tick source initial) mine route supplied stored before =
      delayed_value (s.next_index == 0) initial (get s.previous source) (elim stored [
        | inl zero_index ↦ inl (initially s.next_index zero_index)
        | inr held ↦ inr held
      ])

  stored_at :
      (input : StepInput) (source : StepSource) (rest : Inputs)
      → (s.next_index ≡ 0) ⊎ All (IsHeld s.previous) ((input, source) ∷ rest)
      → ((s.next_index ≡ 0) ⊎ IsHeld s.previous (input, source))
        × ((s.next_index ≡ 0) ⊎ All (IsHeld s.previous) rest)
  stored_at input source rest (inl first) = (inl first, inl first)
  stored_at input source rest (inr held) = (inr held.0, inr held.1)

  -- Every route of the node has its value.
  pub routed_by :
      (inputs : Inputs)
      → All (IsRoute nodes) (plan_routes inputs)
      → All (IsSupplied request.inputs) inputs
      → (s.next_index ≡ 0) ⊎ All (IsHeld s.previous) inputs
      → All (λ x. contains done x ≡ true) (same_tick_sources (plan_routes inputs) name)
      → is_some (routed_values s request outputs name inputs) ≡ true
  routed_by [] routes supplied stored before = refl
  routed_by ((input, source) ∷ rest) routes supplied stored before =
      let held = stored_at input source rest stored in
      let split =
        All-of_append _
          (route_sources input.instance_name (plan_route source).same_tick
            (plan_route source).output name)
          (same_tick_sources (plan_routes rest) name) before in
      let later = routed_by rest routes.1 supplied.1 held.1 split.1 in
      elim (Bool-cases (bytes_eq input.instance_name name)) [
        | inl mine ↦ rw mine (
            there_by input.port (route_value s request outputs input source)
              (routed_values s request outputs name rest)
              (value_by input source mine routes.0 supplied.0 held.0 split.0) later)
        | inr other ↦ rw other later
      ]
