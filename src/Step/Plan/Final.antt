-- ===== src/Step/Plan/Final.antt =====
-- The dependencies in front of the last loop of `validate_routes`.
use reiny.Prelude.{
  arith, ◌≡◌, refl, sym, ap, ◌∙◌, Bool, true, false, ◌||◌, Option, none, some, List, [], ◌∷◌, Bytes,
  ok, run_each, All, All-map, All-append, get, keys, contains, contains_key, AreDistinct, bytes_key,
  contains-keys, contains-All, All-contains, get-entries, All-get, All-both, is_some, bytes_eq,
  Bool-cases, inl, inr,
}
use reiny.Step.Values.{StepType}
use reiny.Step.Types.{StepSchema, StepOutput}
use reiny.Step.Plan.{Nodes, Routes, Dependencies, check_node, check_route, or_default, output_type}
use reiny.Step.Plan.Routes.{IsNode, IsOutput, IsRoute, nodes_by}
use reiny.Step.Plan.Dependencies.{route_sources, same_tick_sources, waiting, IsSettled, routes_by}
use reiny.Step.Plan.Order.{Waits}
use reiny.Step.Plan.Cycles.{Bound}

-- The dependencies in front of the last loop.
abbrev pub IsFinal : Nodes → Routes → Dependencies → Type 0
IsFinal nodes routes deps =
    All (IsNode routes) nodes
    × (All (IsRoute nodes) routes
        × (IsSettled nodes deps
            × ((node s : Bytes)
                → contains (waiting deps node) s ≡ contains (same_tick_sources routes node) s)))

waiting_idle :
    (deps : Dependencies) (node s : Bytes)
    → All (λ e. e.1 ≡ []) deps
    → contains (waiting deps node) s ≡ false
waiting_idle deps node s idle = go (get deps node) refl
  where
    go :
        (found : Option (List Bytes))
        → get deps node ≡ found
        → contains (or_default found) s ≡ false
    go none e = refl
    go (some sources) e =
        let nothing : sources ≡ [] = All-get (λ entry. entry.1 ≡ []) deps node sources idle e in
        ap (λ xs. contains xs s) nothing

-- Behind both loops the dependencies are final.
pub run_each-IsFinal :
    (nodes : Nodes) (routes : Routes) (declared deps : Dependencies)
    → run_each (check_node routes) [] nodes ≡ ok declared
    → run_each (check_route nodes) declared routes ≡ ok deps
    → IsFinal nodes routes deps
run_each-IsFinal nodes routes declared deps first second =
    let entered = nodes_by routes [] nodes declared first tt tt in
    let idle = entered.1.1.0 in
    let none_yet : All (λ e. AreDistinct e.1) declared =
      All-map _ _ declared (λ entry nothing. rw nothing tt) idle in
    let settled : IsSettled nodes declared =
      (entered.1.0, (none_yet, λ k. entered.1.1.1 k ∙ contains-keys nodes k)) in
    let routed = routes_by nodes declared routes deps second settled in
    (
      entered.0,
      (
        routed.0,
        (
          routed.1,
          λ node s.
              routed.2 node s
              ∙ ap (λ b. b || contains (same_tick_sources routes node) s)
                  (waiting_idle declared node s idle),
        ),
      ),
    )

or_false_end : (a : Bool) → (a || false) ≡ a
or_false_end a = ground arith

-- Every entry waits for just the nodes that feed it.
pub IsFinal-Waits :
    (nodes : Nodes) (routes : Routes) (deps : Dependencies)
    → IsFinal nodes routes deps
    → All (Waits (same_tick_sources routes) []) deps
IsFinal-Waits nodes routes deps final =
    All-map _ _ deps
      (λ entry found. contains-All _ (same_tick_sources routes entry.0) (λ s fed.
        or_false_end (contains entry.1 s)
        ∙ sym (ap (λ xs. contains xs s) (ap or_default found))
        ∙ final.1.1.1 entry.0 s
        ∙ fed))
      (get-entries deps final.1.1.0.0)

pub output_known :
    (nodes : Nodes) (output : StepOutput) (actual : StepType)
    → output_type nodes output ≡ some actual
    → contains_key nodes output.instance_name ≡ true
output_known nodes output actual found = go (get nodes output.instance_name) refl
  where
    go : (o : Option StepSchema) → get nodes output.instance_name ≡ o → is_some o ≡ true
    go none e = let gone : output_type nodes output ≡ none = rw (output_type, e) refl in cc
    go (some schema) e = refl

-- The sources of a route are declared nodes.
route_known :
    (nodes : Nodes) (name : Bytes) (same_tick : Bool) (output : Option StepOutput)
    (expected : StepType) (node : Bytes)
    → IsOutput nodes output expected
    → All (λ s. contains_key nodes s ≡ true) (route_sources name same_tick output node)
route_known nodes name false output expected node is_output = tt
route_known nodes name true none expected node is_output = tt
route_known nodes name true (some output) expected node is_output =
    elim (Bool-cases (bytes_eq name node)) [
      | inl e ↦ rw e (output_known nodes output is_output.0 is_output.1.0, tt)
      | inr e ↦ rw e tt
    ]

sources_known :
    (nodes : Nodes) (routes : Routes) (node : Bytes)
    → All (IsRoute nodes) routes
    → All (λ s. contains_key nodes s ≡ true) (same_tick_sources routes node)
sources_known nodes [] node checked = tt
sources_known nodes ((input, route) ∷ rest) node checked =
    All-append _ (route_sources input.instance_name route.same_tick route.output node)
      (same_tick_sources rest node)
      (route_known nodes input.instance_name route.same_tick route.output checked.0.0 node
        checked.0.1.1.1)
      (sources_known nodes rest node checked.1)

pub IsFinal-Bound :
    (nodes : Nodes) (routes : Routes) (deps : Dependencies)
    → IsFinal nodes routes deps
    → All (Bound (same_tick_sources routes) (keys deps)) deps
IsFinal-Bound nodes routes deps final =
    All-map _ _ deps
      (λ entry at_entry. (
        at_entry.1,
        contains-All _ entry.1 (λ s held.
            let fed : contains (same_tick_sources routes entry.0) s ≡ true =
              sym (final.1.1.1 entry.0 s)
              ∙ ap (λ xs. contains xs s) (ap or_default at_entry.0)
              ∙ held in
            let known =
              All-contains _ (same_tick_sources routes entry.0) s
                (sources_known nodes routes entry.0 final.1.0) fed in
            (final.1.1.0.1.1 s ∙ known, fed)),
      ))
      ((All-both _ _ deps).1 (get-entries deps final.1.1.0.0, final.1.1.0.1.0))
