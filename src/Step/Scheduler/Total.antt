-- ===== src/Step/Scheduler/Total.antt =====
-- An advancement of a scheduler that was built from a graph does not unwind by itself: every value
-- that it looks up is there.
use reiny.Prelude.{
  ◌≡◌, ◌≢◌, refl, sym, ap, ◌∙◌, Bool, true, false, not, if◌then◌else◌, Option, none, some, List, [],
  ◌∷◌, ◌++◌, append_assoc, append-nil, Bytes, Map, Result, ok, err, ◌>>=◌, Ends, run_each, All,
  All-map, All-append, contains-All, get, extend, contains, contains_key, is_some, inr, bytes_key,
}
use reiny.Step.Values.{StepValue}
use reiny.Step.Types.{
  StepSchema, StepTick, StepInputs, StepOutputs, StepReceipt, StepFailure, ClockSnapshot, input_key,
  output_key,
}
use reiny.Step.Plan.{plan_routes}
use reiny.Step.Plan.Dependencies.{same_tick_sources}
use reiny.Step.Plan.Order.{AreReady}
use reiny.Step.Plan.Compiled.{IsPlan}
use reiny.Step.Request.{StepRequest, RequestFailure, ValidatedRequest, validate}
use reiny.Step.Request.Accepted.{validate-eq-ok}
use reiny.Step.Execution.{
  Verdict, Invocation, NodeFailure, Polled, Payload, payload_panics, caught, dispatch, catch_node,
  invalid_output,
}
use reiny.Step.Clock.{StepScheduler, clock}
use reiny.Step.Node.{
  Outcome, unwound, Run, Exit, addressed, check_outputs, with_schema, after_node, after_invoke,
  routed_values, collect, run_node,
}
use reiny.Step.Scheduler.{
  Advanced, committed, after_nodes, start_run, after_request, unless_faulted, advance_run,
  advance_controlled, booked,
}
use reiny.Step.Scheduler.Produced.{Outputs, IsProduced, IsProduced-more, IsProduced-now}
use reiny.Step.Scheduler.Routed.{IsSupplied, IsHeld, IsStored, routed_by}
use reiny.Step.Scheduler.Stored.{
  delayed_outputs-IsStore, store-extend, IsSupplied-by, validate-ne-unwound,
}

-- A compiled plan, and behind the first tick a value for every delayed route.
abbrev pub IsScheduler : StepScheduler → Type 0
IsScheduler s = IsPlan s.plan × IsStored s

-- The nodes so far have produced their outputs; an end is not a panic.
abbrev Passed : {X : Type 0} → StepScheduler → List Bytes → Run X → Type 0
Passed s done run = All (IsProduced s.plan.graph.nodes run.outputs) done

-- An executor whose futures and panics, when they are dropped, do not panic (again).
abbrev pub drops_well : Invocation → Bool
drops_well (Invocation.abandoned panicking) = not panicking
drops_well (Invocation.finished polled disposal) = not (payload_panics polled disposal)

abbrev pub IsExecutor : {X : Type 0} → (X → Bytes → StepTick → StepInputs → Invocation × X) → Type 0
IsExecutor {X = X} invoke =
    (world : X) (name : Bytes) (tick : StepTick) (inputs : StepInputs)
    → drops_well (invoke world name tick inputs).0 ≡ true

-- A commit that does not panic.
abbrev pub returns : Verdict → Bool
returns Verdict.applied = true
returns (Verdict.refused kind) = true
returns (Verdict.panicked behind) = false

abbrev pub IsCommit : (StepReceipt → ClockSnapshot → Verdict) → Type 0
IsCommit control =
    (receipt : StepReceipt) (clock : ClockSnapshot) → returns (control receipt clock) ≡ true

-- With `Calm` for what the executor and the commit are known to do.
abbrev Ended : (Calm : Type 0) → {X : Type 0} → Exit X → Type 0
Ended Calm exit = Calm → exit.outcome ≢ unwound

schema_of : {A : Type 0} (found : Option A) → is_some found ≡ true → (a : A) × (found ≡ some a)
schema_of none h = cc
schema_of (some a) h = (a, refl)

collected :
    (values : Option (Map Bytes StepValue))
    → is_some values ≡ true
    → (inputs : StepInputs) × (collect values ≡ some inputs)
collected none h = cc
collected (some entries) h = (extend [] entries, refl)

catches :
    (polled : Polled) (disposal : Option Payload) (panics : Bool)
    → not panics ≡ true
    → is_some (if panics then none else some (caught polled disposal)) ≡ true
catches polled disposal true well = cc
catches polled disposal false well = refl

module _ {X : Type 0} (Calm : Type 0) (s : StepScheduler) (done : List Bytes) (name : Bytes) where
  check_outputs-Passed :
      (run : Run X) (schema : StepSchema) (outputs : StepOutputs) (invalid : Option (Bytes × Bytes))
      → get s.plan.graph.nodes name ≡ some schema
      → invalid_output schema.outputs outputs ≡ invalid
      → Passed s done run
      → Ends (Passed s (done ++ (name ∷ []))) (Ended Calm) (check_outputs run name outputs invalid)
  check_outputs-Passed run schema outputs (some (port, detail)) there e passed = λ calm h. cc
  check_outputs-Passed run schema outputs none there e passed =
      All-append _ done (name ∷ [])
        (All-map _ _ done
          (λ n. IsProduced-more s.plan.graph.nodes run.outputs (addressed name outputs) n) passed)
        (IsProduced-now s.plan.graph.nodes run.outputs name schema outputs there e, tt)

  with_schema-Passed :
      (run : Run X) (outputs : StepOutputs) (found : Option StepSchema)
      → get s.plan.graph.nodes name ≡ found
      → is_some found ≡ true
      → Passed s done run
      → Ends (Passed s (done ++ (name ∷ []))) (Ended Calm) (with_schema run name outputs found)
  with_schema-Passed run outputs none there known passed = cc
  with_schema-Passed run outputs (some schema) there known passed =
      check_outputs-Passed run schema outputs (invalid_output schema.outputs outputs) there refl
        passed

  after_node-Passed :
      (run : Run X) (result : Option (Result NodeFailure StepOutputs))
      → (Calm → is_some result ≡ true)
      → contains_key s.plan.graph.nodes name ≡ true
      → Passed s done run
      → Ends
          (Passed s (done ++ (name ∷ [])))
          (Ended Calm)
          (after_node run name s.plan.graph.nodes result)
  after_node-Passed run none there known passed = λ calm. let is = there calm in cc
  after_node-Passed run (some (err (kind, detail))) there known passed = λ calm h. cc
  after_node-Passed run (some (ok outputs)) there known passed =
      with_schema-Passed run outputs (get s.plan.graph.nodes name) refl known passed

  after_invoke-Passed :
      (run : Run X) (invocation : Invocation)
      → (Calm → drops_well invocation ≡ true)
      → contains_key s.plan.graph.nodes name ≡ true
      → Passed s done run
      → Ends
          (Passed s (done ++ (name ∷ [])))
          (Ended Calm)
          (after_invoke run name s.plan.graph.nodes invocation)
  after_invoke-Passed run (Invocation.abandoned true) well known passed =
      λ calm. let is = well calm in cc
  after_invoke-Passed run (Invocation.abandoned false) well known passed = λ calm h. cc
  after_invoke-Passed run (Invocation.finished polled disposal) well known passed =
      after_node-Passed run (catch_node polled disposal)
        (λ calm. catches polled disposal (payload_panics polled disposal) (well calm)) known passed

module _ {X : Type 0} (Calm : Type 0) (invoke : X → Bytes → StepTick → StepInputs → Invocation × X)
    (calm_invoke : Calm → IsExecutor invoke) (s : StepScheduler) (request : ValidatedRequest)
    (good : IsScheduler s) (supplied : All (IsSupplied request.inputs) s.plan.graph.inputs) where
  run_node-Passed :
      (done : List Bytes) (run : Run X) (name : Bytes)
      → All (λ x. contains done x ≡ true) (same_tick_sources (plan_routes s.plan.graph.inputs) name)
      → contains_key s.plan.graph.nodes name ≡ true
      → Passed s done run
      → Ends (Passed s (done ++ (name ∷ []))) (Ended Calm) (run_node invoke s request run name)
  unfolding run_node
  run_node-Passed done run name before known passed =
      let values = routed_values s request run.outputs name s.plan.graph.inputs in
      let there = collected values (
        routed_by s request run.outputs s.plan.graph.nodes done name passed s.plan.graph.inputs
          good.0.1 supplied good.1 before) in
      let found = there.1 in
      let called = invoke run.world name request.tick there.0 in
      rw found (
        after_invoke-Passed Calm s done name
          (record run { guard = dispatch run.guard name; world = called.1 }) called.0
          (λ calm. calm_invoke calm run.world name request.tick there.0) known passed)

  after_round :
      (done rest : List Bytes) (name : Bytes) (ran : Result (Exit X) (Run X))
      → Ends (Passed s (done ++ (name ∷ []))) (Ended Calm) ran
      → ((run : Run X)
          → Passed s (done ++ (name ∷ [])) run
          → Ends
              (Passed s ((done ++ (name ∷ [])) ++ rest))
              (Ended Calm)
              (run_each (run_node invoke s request) run rest))
      → Ends
          (Passed s (done ++ (name ∷ rest)))
          (Ended Calm)
          (ran >>= λ run. run_each (run_node invoke s request) run rest)
  after_round done rest name (err exit) ended later = ended
  after_round done rest name (ok run) passed later =
      rw (sym (append_assoc done (name ∷ []) rest)) (later run passed)

  run_nodes-Passed :
      (done rest : List Bytes) (run : Run X)
      → AreReady (same_tick_sources (plan_routes s.plan.graph.inputs)) done rest
      → All (λ name. contains_key s.plan.graph.nodes name ≡ true) rest
      → Passed s done run
      → Ends (Passed s (done ++ rest)) (Ended Calm) (run_each (run_node invoke s request) run rest)
  run_nodes-Passed done [] run ready known passed = rw (append-nil done) passed
  run_nodes-Passed done (name ∷ rest) run ready known passed =
      after_round done rest name (run_node invoke s request run name)
        (run_node-Passed done run name ready.0 known.0 passed)
        (λ next at_next. run_nodes-Passed (done ++ (name ∷ [])) rest next ready.1 known.1 at_next)

-- The scheduler behind an advancement is again a good one, and where executor and commit do not
-- panic it did not unwind.
abbrev pub IsSound : Type 0 → {X : Type 0} → Outcome × (StepScheduler × X) → Type 0
IsSound Calm (outcome, (after, left)) = (Calm → outcome ≢ unwound) × IsScheduler after

module _ {X : Type 0} (control : StepReceipt → ClockSnapshot → Verdict)
    (invoke : X → Bytes → StepTick → StepInputs → Invocation × X) (s : StepScheduler)
    (good : IsScheduler s) where
  abbrev Calm : Type 0
  Calm = IsExecutor invoke × IsCommit control

  abbrev result_of : Advanced X → Outcome × (StepScheduler × X)
  result_of end = (end.exit.outcome, (booked s end.exit.fault end.books, end.exit.world))

  committed_by :
      (request : ValidatedRequest) (run : Run X) (previous : Outputs) (receipt : StepReceipt)
      (verdict : Verdict)
      → (Calm → returns verdict ≡ true)
      → All (IsHeld previous) s.plan.graph.inputs
      → IsSound Calm (result_of (committed request run previous receipt verdict))
  committed_by request run previous receipt Verdict.applied calm held =
      (λ c h. cc, (good.0, inr held))
  committed_by request run previous receipt (Verdict.refused kind) calm held = (λ c h. cc, good)
  committed_by request run previous receipt (Verdict.panicked true) calm held =
      (λ c. let is = calm c in cc, (good.0, inr held))
  committed_by request run previous receipt (Verdict.panicked false) calm held =
      (λ c. let is = calm c in cc, good)

  nodes_by :
      (request : ValidatedRequest) (ran : Result (Exit X) (Run X))
      → Ends (Passed s s.plan.order) (Ended Calm) ran
      → IsSound Calm (result_of (after_nodes control s request ran))
  nodes_by request (err exit) ended = (ended, good)
  nodes_by request (ok run) passed =
      let store =
        delayed_outputs-IsStore s.plan.graph.nodes run.outputs s.plan.order s.plan.graph.inputs
          good.0.1 passed good.0.4 in
      let stored = store.1 in
      rw stored (
        committed_by request run (extend [] store.0) _ _ (λ c. c.1 _ _)
          (store-extend store.0 s.plan.graph.inputs store.2))

  request_by :
      (world : X) (request : StepRequest) (checked : Result RequestFailure ValidatedRequest)
      → validate request s.plan (clock s) ≡ checked
      → IsSound Calm (result_of (after_request control invoke s world checked))
  request_by world request (err RequestFailure.unwound) e =
      absurd (validate-ne-unwound request s.plan (clock s) good.0.1 e)
  request_by world request (err (RequestFailure.rejected error)) e = (λ c h. cc, good)
  request_by world request (ok valid) e =
      let facts = validate-eq-ok request s.plan (clock s) valid e in
      let inputs = ap (λ v. v.inputs) facts.3 in
      let supplied : All (IsSupplied valid.inputs) s.plan.graph.inputs =
        rw inputs (IsSupplied-by s.plan.graph request.inputs s.plan.graph.inputs facts.2) in
      let known =
        contains-All (λ name. contains_key s.plan.graph.nodes name ≡ true) s.plan.order
          (λ name held. sym (good.0.4 name) ∙ held) in
      nodes_by valid
        (run_each (run_node invoke s valid) (start_run control invoke s valid world) s.plan.order)
        (run_nodes-Passed Calm invoke (λ c. c.0) s valid good supplied [] s.plan.order
          (start_run control invoke s valid world) good.0.2 known tt)

  fault_by :
      (world : X) (request : StepRequest) (fault : Option StepFailure)
      → s.fault ≡ fault
      → IsSound Calm (result_of (unless_faulted control invoke s world request fault))
  fault_by world request (some failure) e = (λ c h. cc, good)
  fault_by world request none e = request_by world request (validate request s.plan (clock s)) refl

  pub advance_controlled-IsSound :
      (world : X) (request : StepRequest)
      → IsSound Calm (advance_controlled invoke control s world request)
  unfolding advance_run
  advance_controlled-IsSound world request = fault_by world request s.fault refl
