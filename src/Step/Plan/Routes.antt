-- ===== src/Step/Plan/Routes.antt =====
-- What the first two loops of `validate_routes` check, and the dependencies that they leave.
use reiny.Prelude.{
  or_nothing, arith, ◌≡◌, ◌↔◌, refl, ap, ◌∙◌, Bool, true, ◌||◌, Option, none, some, List, [], ◌∷◌,
  ◌++◌, Bytes, Result, ok, err, run_each, seq_iff, require_iff, iff_refl, ok_iff, for_each_iff,
  >>=-eq-ok, All, insert, keys, contains, contains_key, same_key, AreDistinct, bytes_key,
  keys-insert, contains-set_insert, set_insert-AreDistinct, All-insert,
}
use reiny.Bindings.Types.{BindingError}
use reiny.Bindings.Names.{validate_namespace, validate_port_name}
use reiny.Step.Values.{StepType, identity}
use reiny.Step.Types.{StepInput, StepOutput, StepSchema, StepPlanError, input_key}
use reiny.Step.Plan.{
  PlanRoute, Nodes, Routes, Dependencies, or_refuse, node_input, check_node, input_type,
  output_type,
}

-- A node is named and its ports are, and each of its inputs has a route.
abbrev pub IsNode : Routes → Bytes × StepSchema → Type 0
IsNode routes (name, schema) =
    (validate_namespace name ≡ ok tt)
    × (All (λ port. validate_port_name port ≡ ok tt) (keys schema.inputs ++ keys schema.outputs)
        × All (λ port. contains_key routes (node_input name port) ≡ true) (keys schema.inputs))

abbrev pub IsInitial : Option StepType → StepType → Type 0
IsInitial none expected = Unit {0}
IsInitial (some initial) expected = identity initial ≡ identity expected

abbrev pub IsOutput : Nodes → Option StepOutput → StepType → Type 0
IsOutput nodes none expected = Unit {0}
IsOutput nodes (some output) expected =
    (actual : StepType) × ((output_type nodes output ≡ some actual)
      × (identity actual ≡ identity expected))

-- A route leads to a declared input, from a declared output of its type, with an initial value of
-- its type.
abbrev pub IsRoute : Nodes → StepInput × PlanRoute → Type 0
IsRoute nodes (input, route) =
    (expected : StepType) × ((input_type nodes input ≡ some expected)
      × (IsInitial route.initial expected × IsOutput nodes route.output expected))

or_refuse_iff :
    (r : Result BindingError (Unit {0})) (failure : StepPlanError)
    → (or_refuse r failure ≡ ok tt) ↔ (r ≡ ok tt)
or_refuse_iff (ok done) failure = (λ _. refl, λ _. refl)
or_refuse_iff (err reason) failure = (λ h. cc, λ h. cc)

node_iff :
    (routes : Routes) (deps : Dependencies) (node : Bytes × StepSchema) (after : Dependencies)
    → (check_node routes deps node ≡ ok after) ↔ (
        (validate_namespace node.0 ≡ ok tt)
        × (All (λ port. validate_port_name port ≡ ok tt) (keys node.1.inputs ++ keys node.1.outputs)
            × (All
                  (λ port. contains_key routes (node_input node.0 port) ≡ true)
                  (keys node.1.inputs)
                × (after ≡ insert node.0 [] deps))))
unfolding check_node
node_iff routes deps (name, schema) after = seq_iff (or_refuse_iff _ _) (
    seq_iff (for_each_iff _ (keys schema.inputs ++ keys schema.outputs) (λ port. or_refuse_iff _ _))
      (seq_iff (for_each_iff _ (keys schema.inputs) (λ port. require_iff _ _ (iff_refl _)))
        (ok_iff (insert name [] deps) after)))

-- The first loop: every node checked and entered, waiting for nothing.
abbrev Entered : Dependencies → List Bytes → Dependencies → Type 0
Entered deps names after =
    AreDistinct (keys after)
    × (All (λ e. e.1 ≡ []) after
        × ((k : Bytes) → contains (keys after) k ≡ (contains (keys deps) k || contains names k)))

pub contains-inserted :
    (deps : Dependencies) (name : Bytes) (waiting : List Bytes) (k : Bytes)
    → contains (keys (insert name waiting deps)) k ≡ (same_key name k || contains (keys deps) k)
contains-inserted deps name waiting k =
    ap (λ xs. contains xs k) (keys-insert name waiting deps)
    ∙ contains-set_insert k name (keys deps)

pub inserted-AreDistinct :
    (deps : Dependencies) (name : Bytes) (waiting : List Bytes)
    → AreDistinct (keys deps)
    → AreDistinct (keys (insert name waiting deps))
inserted-AreDistinct deps name waiting distinct =
    rw (keys-insert name waiting deps) (set_insert-AreDistinct name (keys deps) distinct)

swap : (a b c d : Bool) → d ≡ (b || a) → (d || c) ≡ (a || (b || c))
swap a b c d e = ground arith

pub nodes_by :
    (routes : Routes) (deps : Dependencies) (nodes : Nodes) (after : Dependencies)
    → run_each (check_node routes) deps nodes ≡ ok after
    → AreDistinct (keys deps)
    → All (λ e. e.1 ≡ []) deps
    → All (IsNode routes) nodes × Entered deps (keys nodes) after
nodes_by routes deps [] after done distinct empty =
    let same : after ≡ deps = cc in
    (tt, rw same (distinct, (empty, λ k. or_nothing (contains (keys deps) k))))
nodes_by routes deps (node ∷ rest) after done distinct empty =
    let first =
      >>=-eq-ok (check_node routes deps node) (λ d. run_each (check_node routes) d rest) done in
    let now = (node_iff routes deps node first.0).0 first.1 in
    let same = now.1.1.1 in
    let apart : AreDistinct (keys first.0) =
      rw same (inserted-AreDistinct deps node.0 [] distinct) in
    let idle : All (λ e. e.1 ≡ []) first.0 = rw same (All-insert _ node.0 [] deps refl empty) in
    let later = nodes_by routes first.0 rest after first.2 apart idle in
    (
      ((now.0, (now.1.0, now.1.1.0)), later.0),
      (
        later.1.0,
        (
          later.1.1.0,
          λ k.
              later.1.1.1 k
              ∙ swap (contains (keys deps) k) (same_key node.0 k) (contains (keys rest) k)
                  (contains (keys first.0) k)
                  (ap (λ d. contains (keys d) k) same ∙ contains-inserted deps node.0 [] k),
        ),
      ),
    )
