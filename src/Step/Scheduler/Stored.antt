-- ===== src/Step/Scheduler/Stored.antt =====
-- What a tick stores for the next one, and what an accepted request supplies.
use reiny.Prelude.{
  ◌≡◌, ◌≢◌, refl, sym, ◌∙◌, true, ◌||◌, Option, none, some, List, [], ◌∷◌, Bytes, Map, All, All-map,
  All-contains, get, contains, contains_key, is_some, is_some-extend, bytes_key, same_key,
  same_key_refl, extend, ok, err, ok_or, for_each, for_each-ne-err, for_each_iff, iff_refl,
  get_cons, or_true, >>=-eq-ok, refuse-ne-err, >>=-ne-err, ok_or_then-ne-err, >>-ne-err, ok-ne-err,
  everywhere, keys,
}
use reiny.Step.Values.{StepType, StepValue}
use reiny.Step.Types.{
  StepInput, StepOutput, StepSource, StepSchema, StepGraph, ClockSnapshot, input_key, output_key,
}
use reiny.Step.Plan.{Plan, Nodes, plan_routes, input_type}
use reiny.Step.Plan.Routes.{IsRoute}
use reiny.Step.Plan.Final.{output_known}
use reiny.Step.Request.{
  StepRequest, StepRequestError, RequestFailure, index_type, check_expected, check_supplied,
  validate,
}
use reiny.Step.Scheduler.{delayed_outputs}
use reiny.Step.Scheduler.Produced.{Outputs, IsProduced, produced_by}
use reiny.Step.Scheduler.Routed.{Inputs, IsSupplied, IsHeld}

-- The store of a tick whose nodes have all produced their outputs.
abbrev pub IsStore : Outputs → Inputs → Type 0
IsStore outputs inputs =
    (entries : Outputs) × (delayed_outputs outputs inputs ≡ some entries)
    × All (IsHeld entries) inputs

IsHeld-more :
    (entries : Outputs) (source : StepOutput) (value : StepValue) (route : StepInput × StepSource)
    → IsHeld entries route
    → IsHeld ((source, value) ∷ entries) route
IsHeld-more entries source value (input, StepSource.external) held = tt
IsHeld-more entries source value (input, StepSource.same_tick other) held = tt
IsHeld-more entries source value (input, StepSource.previous_tick other initial) held =
    get_cons (source, value) entries other ∙ or_true (same_key source other) held

IsStore-step :
    (outputs : Outputs) (input : StepInput) (source : StepOutput) (initial : StepValue)
    (rest : Inputs) (value : Option StepValue)
    → get outputs source ≡ value
    → is_some value ≡ true
    → IsStore outputs rest
    → IsStore outputs ((input, StepSource.previous_tick source initial) ∷ rest)
IsStore-step outputs input source initial rest none e there later = cc
IsStore-step outputs input source initial rest (some value) e there later =
    let stored = later.1 in
    let same : (same_key source source || is_some (get later.0 source)) ≡ true =
      rw (same_key_refl source) refl in
    (
      (source, value) ∷ later.0,
      rw (e, stored) refl,
      (
        get_cons (source, value) later.0 source ∙ same,
        All-map _ _ rest (λ route. IsHeld-more later.0 source value route) later.2,
      ),
    )

pub delayed_outputs-IsStore :
    (nodes : Nodes) (outputs : Outputs) (order : List Bytes) (inputs : Inputs)
    → All (IsRoute nodes) (plan_routes inputs)
    → All (IsProduced nodes outputs) order
    → ((name : Bytes) → contains order name ≡ contains_key nodes name)
    → IsStore outputs inputs
delayed_outputs-IsStore nodes outputs order [] routes produced all_there = ([], refl, tt)
delayed_outputs-IsStore nodes outputs order ((input, StepSource.external) ∷ rest) routes produced
      all_there =
    let later = delayed_outputs-IsStore nodes outputs order rest routes.1 produced all_there in
    (later.0, later.1, (tt, later.2))
delayed_outputs-IsStore nodes outputs order ((input, StepSource.same_tick source) ∷ rest) routes
      produced all_there =
    let later = delayed_outputs-IsStore nodes outputs order rest routes.1 produced all_there in
    (later.0, later.1, (tt, later.2))
delayed_outputs-IsStore nodes outputs order
      ((input, StepSource.previous_tick source initial) ∷ rest) routes produced all_there =
    let is_output = routes.0.1.1.1 in
    let known = output_known nodes source is_output.0 is_output.1.0 in
    let done = all_there source.instance_name ∙ known in
    let there =
      produced_by nodes outputs source is_output.0
        (All-contains (IsProduced nodes outputs) order source.instance_name produced done)
        is_output.1.0 in
    IsStore-step outputs input source initial rest (get outputs source) refl there
      (delayed_outputs-IsStore nodes outputs order rest routes.1 produced all_there)

extended_by :
    (entries : Outputs) (route : StepInput × StepSource)
    → IsHeld entries route
    → IsHeld (extend [] entries) route
extended_by entries (input, StepSource.external) held = tt
extended_by entries (input, StepSource.same_tick other) held = tt
extended_by entries (input, StepSource.previous_tick other initial) held =
    is_some-extend [] entries other ∙ held

pub store-extend :
    (entries : Outputs) (inputs : Inputs)
    → All (IsHeld entries) inputs
    → All (IsHeld (extend [] entries)) inputs
store-extend entries inputs held = All-map _ _ inputs (extended_by entries) held

none-ne-some : {A : Type 0} {a : A} → none ≢ some a
none-ne-some h = cc

given :
    {E A : Type 0} (o : Option A) (failure : E) (a : A) → ok_or o failure ≡ ok a → is_some o ≡ true
given none failure a h = cc
given (some b) failure a h = refl

-- A request that passes its checks has a value for every external route.
IsSupplied-at :
    (graph : StepGraph) (supplied : Map StepInput StepValue) (route : StepInput × StepSource)
    → check_supplied graph supplied route ≡ ok tt
    → IsSupplied supplied route
IsSupplied-at graph supplied (input, StepSource.external) passed =
    let found = >>=-eq-ok (ok_or (get supplied input) _) _ passed in
    given (get supplied input) _ found.0 found.1
IsSupplied-at graph supplied (input, StepSource.same_tick source) passed = tt
IsSupplied-at graph supplied (input, StepSource.previous_tick source initial) passed = tt

pub IsSupplied-by :
    (graph : StepGraph) (supplied : Map StepInput StepValue) (inputs : Inputs)
    → for_each (check_supplied graph supplied) inputs ≡ ok tt
    → All (IsSupplied supplied) inputs
IsSupplied-by graph supplied inputs passed =
    All-map _ _ inputs (IsSupplied-at graph supplied)
      ((for_each_iff (check_supplied graph supplied) inputs (λ route. iff_refl _)).0 passed)

-- The type of a declared input is found, so the validation does not unwind.
module _ (nodes : Nodes) (input : StepInput) (expected : StepType) where
  index_at :
      (o : Option StepSchema)
      → get nodes input.instance_name ≡ o
      → input_type nodes input ≡ some expected
      → index_type nodes input ≢ err RequestFailure.unwound
  index_at none e declared =
      let gone : input_type nodes input ≡ none = rw (input_type, e) refl in
      absurd (none-ne-some (sym gone ∙ declared))
  index_at (some schema) e declared =
      let typed : get schema.inputs input.port ≡ some expected =
        sym (rw (input_type, e) refl) ∙ declared in
      let found : index_type nodes input ≡ ok expected = rw (index_type, e, typed) refl in
      λ h. let both = sym found ∙ h in cc

  index-ne-unwound :
      input_type nodes input ≡ some expected → index_type nodes input ≢ err RequestFailure.unwound
  index-ne-unwound declared = index_at (get nodes input.instance_name) refl declared

rejected-ne-unwound :
    (error : StepRequestError) → RequestFailure.rejected error ≢ RequestFailure.unwound
rejected-ne-unwound error = λ h. cc

supplied-ne-unwound :
    (graph : StepGraph) (supplied : Map StepInput StepValue) (inputs : Inputs)
    → All (IsRoute graph.nodes) (plan_routes inputs)
    → All (λ route. check_supplied graph supplied route ≢ err RequestFailure.unwound) inputs
supplied-ne-unwound graph supplied [] routes = tt
supplied-ne-unwound graph supplied ((input, StepSource.external) ∷ rest) routes = (
  ok_or_then-ne-err (get supplied input) _ _ (rejected-ne-unwound _) (λ value.
      >>=-ne-err (index_type graph.nodes input)
        (index-ne-unwound graph.nodes input routes.0.0 routes.0.1.0)
        (λ expected found. refuse-ne-err _ _ (rejected-ne-unwound _))),
  supplied-ne-unwound graph supplied rest routes.1,
)
supplied-ne-unwound graph supplied ((input, StepSource.same_tick source) ∷ rest) routes =
    (ok-ne-err tt, supplied-ne-unwound graph supplied rest routes.1)
supplied-ne-unwound graph supplied ((input, StepSource.previous_tick source initial) ∷ rest)
      routes =
    (ok-ne-err tt, supplied-ne-unwound graph supplied rest routes.1)

expected-ne-unwound :
    (input : StepInput) (source : Option StepSource)
    → check_expected input source ≢ err RequestFailure.unwound
expected-ne-unwound input none = λ h. cc
expected-ne-unwound input (some StepSource.external) = λ h. cc
expected-ne-unwound input (some (StepSource.same_tick source)) = λ h. cc
expected-ne-unwound input (some (StepSource.previous_tick source initial)) = λ h. cc

pub validate-ne-unwound :
    (request : StepRequest) (plan : Plan) (at : ClockSnapshot)
    → All (IsRoute plan.graph.nodes) (plan_routes plan.graph.inputs)
    → validate request plan at ≢ err RequestFailure.unwound
unfolding validate
validate-ne-unwound request plan at routes =
    let expected =
      for_each-ne-err (λ input. check_expected input (get plan.graph.inputs input))
        (keys request.inputs)
        (everywhere (keys request.inputs)
          (λ input. expected-ne-unwound input (get plan.graph.inputs input))) in
    let supplied =
      for_each-ne-err (check_supplied plan.graph request.inputs) plan.graph.inputs
        (supplied-ne-unwound plan.graph request.inputs plan.graph.inputs routes) in
    search (>>-ne-err, ok_or_then-ne-err, refuse-ne-err, rejected-ne-unwound, ok-ne-err) depth 12
