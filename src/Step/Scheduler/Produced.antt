-- ===== src/Step/Scheduler/Produced.antt =====
-- The outputs that the nodes of a tick have produced.
use reiny.Prelude.{
  ◌≡◌, refl, sym, ap, ◌∙◌, true, ◌||◌, Option, none, some, [], ◌∷◌, Bytes, Map, All, All-map,
  All-contains, get, keys, extend, contains-keys, is_some, is_some-extend, same_key, same_key_refl,
  same_key-eq, same_test, get_head, get_tail, Bool-cases, inl, inr, bytes_key, or_true,
}
use reiny.Step.Values.{StepType, StepValue}
use reiny.Step.Types.{StepOutput, StepSchema, StepOutputs, output_key}
use reiny.Step.Plan.{Nodes, output_type}
use reiny.Step.Execution.{declared_outputs, missing_or_mismatched, first_of, invalid_output}
use reiny.Step.Node.{addressed}

abbrev pub Outputs : Type 0
Outputs = Map StepOutput StepValue

abbrev pub output_at : Bytes → Bytes → StepOutput
output_at name port = record { instance_name = name; port = port }

-- Every output that the node declares is there.
abbrev pub IsProduced : Nodes → Outputs → Bytes → Type 0
IsProduced nodes outputs name =
    (schema : StepSchema) × (get nodes name ≡ some schema)
    × All (λ port. is_some (get outputs (output_at name port)) ≡ true) (keys schema.outputs)

some_is : {A : Type 0} {o : Option A} {a : A} → o ≡ some a → is_some o ≡ true
some_is e = ap is_some e

-- A declared output of such a node is found.
pub produced_by :
    (nodes : Nodes) (outputs : Outputs) (output : StepOutput) (actual : StepType)
    → IsProduced nodes outputs output.instance_name
    → output_type nodes output ≡ some actual
    → is_some (get outputs output) ≡ true
produced_by nodes outputs output actual produced declared =
    let there = produced.1 in
    let typed : get produced.0.outputs output.port ≡ some actual =
      sym (rw (output_type, there) refl) ∙ declared in
    All-contains _ (keys produced.0.outputs) output.port produced.2
      (contains-keys produced.0.outputs output.port ∙ some_is typed)

pub IsProduced-more :
    (nodes : Nodes) (outputs more : Outputs) (name : Bytes)
    → IsProduced nodes outputs name
    → IsProduced nodes (extend outputs more) name
IsProduced-more nodes outputs more name produced = (
  produced.0,
  produced.1,
  All-map _ _ (keys produced.0.outputs)
      (λ port held.
        is_some-extend outputs more (output_at name port)
        ∙ ap (λ b. b || is_some (get more (output_at name port))) held)
      produced.2,
)

same_output :
    (name port other : Bytes)
    → same_key (output_at name port) (output_at name other) ≡ same_key port other
same_output name port other = same_test _ _ (
  λ h.
      let ports = ap (λ o. o.port) (same_key-eq (output_at name port) (output_at name other) h) in
      rw ports (same_key_refl other),
  λ h. let ports = same_key-eq port other h in rw ports (same_key_refl (output_at name other)),
)

get-addressed :
    (name : Bytes) (outputs : StepOutputs) (port : Bytes)
    → get (addressed name outputs) (output_at name port) ≡ get outputs port
get-addressed name [] port = refl
get-addressed name ((key, value) ∷ rest) port = elim (Bool-cases (same_key key port)) [
  | inl e ↦
      let same = same_output name key port ∙ e in
      get_head (output_at name key, value) (addressed name rest) (output_at name port) same
      ∙ sym (get_head (key, value) rest port e)
  | inr e ↦
      let differ = same_output name key port ∙ e in
      get_tail (output_at name key, value) (addressed name rest) (output_at name port) differ
      ∙ get-addressed name rest port
      ∙ sym (get_tail (key, value) rest port e)
]

first_none :
    (first later : Option (Bytes × Bytes))
    → first_of first later ≡ none
    → (first ≡ none) × (later ≡ none)
first_none none later h = (refl, h)
first_none (some found) later h = cc

matched_by :
    (port : Bytes) (expected : StepType) (value : Option StepValue)
    → missing_or_mismatched port expected value ≡ none
    → is_some value ≡ true
matched_by port expected none h = cc
matched_by port expected (some value) h = refl

declared_by :
    (schema : Map Bytes StepType) (outputs : StepOutputs)
    → declared_outputs schema outputs ≡ none
    → All (λ port. is_some (get outputs port) ≡ true) (keys schema)
declared_by [] outputs h = tt
declared_by ((port, expected) ∷ rest) outputs h =
    let both =
      first_none (missing_or_mismatched port expected (get outputs port))
        (declared_outputs rest outputs) h in
    (matched_by port expected (get outputs port) both.0, declared_by rest outputs both.1)

-- A node whose outputs pass has produced them.
pub IsProduced-now :
    (nodes : Nodes) (outputs : Outputs) (name : Bytes) (schema : StepSchema)
    (node_outputs : StepOutputs)
    → get nodes name ≡ some schema
    → invalid_output schema.outputs node_outputs ≡ none
    → IsProduced nodes (extend outputs (addressed name node_outputs)) name
unfolding invalid_output
IsProduced-now nodes outputs name schema node_outputs there valid = (
  schema,
  there,
  All-map _ _ (keys schema.outputs)
      (λ port held.
        is_some-extend outputs (addressed name node_outputs) (output_at name port)
        ∙ or_true (is_some (get outputs (output_at name port)))
            (ap is_some (get-addressed name node_outputs port) ∙ held))
      (declared_by schema.outputs node_outputs (first_none _ _ valid).0),
)
