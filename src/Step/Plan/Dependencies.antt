-- ===== src/Step/Plan/Dependencies.antt =====
-- The dependencies that the loop over the routes leaves.
use reiny.Prelude.{
  or_nothing, arith, ◌≡◌, ◌↔◌, refl, sym, ap, ◌∙◌, Bool, true, false, ◌||◌, Option, none, some,
  List, [], ◌∷◌, ◌++◌, Bytes, ok, run_each, seq_iff, require_iff, ok_iff, ok_or_iff, >>=-eq-ok, All,
  get, keys, set_insert, contains, contains_key, same_key, same_key-eq, AreDistinct, bytes_key,
  if◌then◌else◌, contains-set_insert, set_insert-AreDistinct, All-insert, All-get, get-insert_hit,
  get-insert_other, bytes_eq, Bool-cases, inl, inr, is_some, contains-append,
}
use reiny.Step.Values.{StepType, type_eq_iff}
use reiny.Step.Types.{StepInput, StepOutput, StepSchema, StepPlanError, input_key}
use reiny.Step.Plan.{
  PlanRoute, refused, Nodes, Routes, Dependencies, input_type, output_type, check_initial,
  or_default, add_dependency, check_output, check_route,
}
use reiny.Step.Plan.Routes.{IsInitial, IsOutput, IsRoute, inserted-AreDistinct, contains-inserted}

abbrev route_after : Dependencies → Bytes → Bool → Option StepOutput → Dependencies
route_after deps name same_tick none = deps
route_after deps name true (some output) = add_dependency deps name output.instance_name
route_after deps name false (some output) = deps

initial_iff :
    (input : StepInput) (initial : Option StepType) (expected : StepType)
    → (check_initial input initial expected ≡ ok tt) ↔ IsInitial initial expected
initial_iff input none expected = (λ _. tt, λ _. refl)
initial_iff input (some initial) expected = require_iff _ _ (type_eq_iff initial expected)

routed_by :
    (deps after : Dependencies) (name : Bytes) (same_tick : Bool) (output : StepOutput)
    → ((if same_tick then add_dependency deps name output.instance_name else deps) ≡ after)
      ↔ (after ≡ route_after deps name same_tick (some output))
routed_by deps after name true output = (λ e. sym e, λ e. sym e)
routed_by deps after name false output = (λ e. sym e, λ e. sym e)

output_iff :
    (nodes : Nodes) (deps : Dependencies) (input : StepInput) (expected : StepType)
    (same_tick : Bool) (output : Option StepOutput) (after : Dependencies)
    → (check_output nodes deps input expected same_tick output ≡ ok after) ↔ (
        IsOutput nodes output expected
        × (after ≡ route_after deps input.instance_name same_tick output))
output_iff nodes deps input expected same_tick none after =
    (λ h. (tt, (ok_iff deps after).0 h), λ h. (ok_iff deps after).1 h.1)
output_iff nodes deps input expected same_tick (some output) after =
    let checked = ok_or_iff (output_type nodes output) _ _ (λ actual.
      seq_iff
        (require_iff _ (refused (StepPlanError.type_mismatch input expected actual))
          (type_eq_iff actual expected))
        (ok_iff
          (if same_tick then add_dependency deps input.instance_name output.instance_name else deps)
          after)) in
    let routed = routed_by deps after input.instance_name same_tick output in
    (
      λ h.
          let found = checked.0 h in
          ((found.0, (found.1.0, found.1.1.0)), routed.0 (sym found.1.1.1)),
      λ h. checked.1 (h.0.0, (h.0.1.0, (h.0.1.1, sym (routed.1 h.1)))),
    )

check_route-IsRoute :
    (nodes : Nodes) (deps : Dependencies) (input : StepInput) (route : PlanRoute)
    (after : Dependencies)
    → check_route nodes deps (input, route) ≡ ok after
    → IsRoute nodes (input, route)
      × (after ≡ route_after deps input.instance_name route.same_tick route.output)
unfolding check_route
check_route-IsRoute nodes deps input route after done =
    let found =
      (ok_or_iff (input_type nodes input) _ _ (λ expected.
          seq_iff (initial_iff input route.initial expected)
            (output_iff nodes deps input expected route.same_tick route.output after))).0
        done in
    ((found.0, (found.1.0, (found.1.1.0, found.1.1.1.0))), found.1.1.1.1)

-- The nodes that a node waits for.
abbrev pub waiting : Dependencies → Bytes → List Bytes
waiting deps name = or_default (get deps name)

abbrev pub route_sources : Bytes → Bool → Option StepOutput → Bytes → List Bytes
route_sources name true (some output) node =
    if bytes_eq name node then output.instance_name ∷ [] else []
route_sources name true none node = []
route_sources name false output node = []

-- The instances that feed a node within the tick.
abbrev pub same_tick_sources : Routes → Bytes → List Bytes
same_tick_sources [] node = []
same_tick_sources ((input, route) ∷ rest) node =
    route_sources input.instance_name route.same_tick route.output node
    ++ same_tick_sources rest node

-- The keys are the nodes, once each, and so are the nodes that each one waits for.
abbrev pub IsSettled : Nodes → Dependencies → Type 0
IsSettled nodes deps =
    AreDistinct (keys deps)
    × (All (λ e. AreDistinct e.1) deps
        × ((k : Bytes) → contains (keys deps) k ≡ contains_key nodes k))

waiting-AreDistinct :
    (deps : Dependencies) (name : Bytes)
    → All (λ e. AreDistinct e.1) deps
    → AreDistinct (waiting deps name)
waiting-AreDistinct deps name all = go (get deps name) refl
  where
    go : (found : Option (List Bytes)) → get deps name ≡ found → AreDistinct (or_default found)
    go none e = tt
    go (some sources) e = All-get (λ entry. AreDistinct entry.1) deps name sources all e

known_by :
    (nodes : Nodes) (name k : Bytes) (held : Bool)
    → contains_key nodes name ≡ true
    → held ≡ contains_key nodes k
    → (same_key name k || held) ≡ contains_key nodes k
known_by nodes name k held known e = elim (Bool-cases (same_key name k)) [
  | inl same ↦
      let at_k : contains_key nodes k ≡ true = rw (sym (same_key-eq name k same)) known in
      rw same (sym at_k)
  | inr differ ↦ rw differ e
]

check_output-IsSettled :
    (nodes : Nodes) (deps : Dependencies) (name : Bytes) (same_tick : Bool)
    (output : Option StepOutput)
    → contains_key nodes name ≡ true
    → IsSettled nodes deps
    → IsSettled nodes (route_after deps name same_tick output)
check_output-IsSettled nodes deps name same_tick none known settled = settled
check_output-IsSettled nodes deps name false (some output) known settled = settled
check_output-IsSettled nodes deps name true (some output) known settled =
    let more = set_insert output.instance_name (waiting deps name) in
    (
      inserted-AreDistinct deps name more settled.0,
      (
        All-insert (λ e. AreDistinct e.1) name more deps
            (set_insert-AreDistinct output.instance_name (waiting deps name)
              (waiting-AreDistinct deps name settled.1.0))
            settled.1.0,
        λ k.
            contains-inserted deps name more k
            ∙ known_by nodes name k (contains (keys deps) k) known (settled.1.1 k),
      ),
    )

added : (a b c : Bool) → a ≡ b → (c || a) ≡ (b || (c || false))
added a b c e = ground arith

both_kinds : (a b c d : Bool) → a ≡ (b || c) → (a || d) ≡ (b || (c || d))
both_kinds a b c d e = ground arith

-- A declared input is one of a declared node.
input_known :
    (nodes : Nodes) (input : StepInput) (expected : StepType)
    → input_type nodes input ≡ some expected
    → contains_key nodes input.instance_name ≡ true
input_known nodes input expected found = go (get nodes input.instance_name) refl
  where
    go : (o : Option StepSchema) → get nodes input.instance_name ≡ o → is_some o ≡ true
    go none e = let gone : input_type nodes input ≡ none = rw (input_type, e) refl in cc
    go (some schema) e = refl

waiting_after :
    (deps : Dependencies) (name : Bytes) (same_tick : Bool) (output : Option StepOutput)
    (node s : Bytes)
    → contains (waiting (route_after deps name same_tick output) node) s
      ≡ (contains (waiting deps node) s || contains (route_sources name same_tick output node) s)
waiting_after deps name false none node s = or_nothing _
waiting_after deps name false (some output) node s = or_nothing _
waiting_after deps name true none node s = or_nothing _
waiting_after deps name true (some output) node s =
    let source = output.instance_name in
    let more = set_insert source (waiting deps name) in
    elim (Bool-cases (same_key name node)) [
      | inl e ↦
          let found = ap or_default (get-insert_hit node name more deps e) in
          let here = ap (waiting deps) (same_key-eq name node e) in
          rw e (
            ap (λ xs. contains xs s) found
            ∙ contains-set_insert s source (waiting deps name)
            ∙ added (contains (waiting deps name) s) (contains (waiting deps node) s)
                (same_key source s) (ap (λ xs. contains xs s) here))
      | inr e ↦
          let kept = ap or_default (get-insert_other node name more deps e) in
          rw e (ap (λ xs. contains xs s) kept ∙ or_nothing _)
    ]

-- The loop over the routes: each is checked, and each node waits for the nodes that feed it.
pub routes_by :
    (nodes : Nodes) (deps : Dependencies) (routes : Routes) (after : Dependencies)
    → run_each (check_route nodes) deps routes ≡ ok after
    → IsSettled nodes deps
    → All (IsRoute nodes) routes
      × IsSettled nodes after
      × ((node s : Bytes)
          → contains (waiting after node) s
            ≡ (contains (waiting deps node) s || contains (same_tick_sources routes node) s))
routes_by nodes deps [] after done settled =
    let same : after ≡ deps = cc in
    (tt, rw same settled, λ node s. ap (λ d. contains (waiting d node) s) same ∙ or_nothing _)
routes_by nodes deps ((input, route) ∷ rest) after done settled =
    let first =
      >>=-eq-ok (check_route nodes deps (input, route)) (λ d. run_each (check_route nodes) d rest)
        done in
    let now = check_route-IsRoute nodes deps input route first.0 first.1 in
    let known = input_known nodes input now.0.0 now.0.1.0 in
    let next : IsSettled nodes first.0 = rw now.1 (
      check_output-IsSettled nodes deps input.instance_name route.same_tick route.output known
        settled) in
    let later = routes_by nodes first.0 rest after first.2 next in
    (
      (now.0, later.0),
      later.1,
      λ node s.
          let fed = route_sources input.instance_name route.same_tick route.output node in
          later.2 node s
          ∙ both_kinds (contains (waiting first.0 node) s) (contains (waiting deps node) s)
              (contains fed s) (contains (same_tick_sources rest node) s)
              (ap (λ d. contains (waiting d node) s) now.1
                ∙ waiting_after deps input.instance_name route.same_tick route.output node s)
          ∙ ap (λ b. contains (waiting deps node) s || b)
              (sym (contains-append fed (same_tick_sources rest node) s)),
    )
