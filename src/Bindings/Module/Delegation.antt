-- ===== src/Bindings/Module/Delegation.antt =====
-- What accepted bindings say of the endpoints that they delegate (`validate_delegations`).
use reiny.Prelude.{
  ◌≡◌, sym, ◌∙◌, true, false, List, [], ◌∷◌, ◌++◌, Bytes, ok, run_each, run_each-append, All,
  AreDistinct, contains, set_insert, require_iff, seq_iff, not_iff, outside-set_insert, Map, ok_iff,
  iff_refl, >>-eq-ok, >>=-eq-ok,
}
use reiny.Bindings.Types.{ModuleBindings, PortDelegation}
use reiny.Bindings.Module.Parts.{validate_bindings_parts}
use reiny.Bindings.Module.{
  Delegated, delegated_key, delegations, is_declared, check_delegated, check_child,
  validate_delegations, validate_bindings,
}

-- The endpoints that the children are given, in the order of the loops.
abbrev pub delegated_ports : Map Bytes PortDelegation → List Delegated
delegated_ports [] = []
delegated_ports (child ∷ rest) = delegations child.1 ++ delegated_ports rest

delegated_by :
    (b : ModuleBindings) (seen : List Delegated) (item : Delegated) (after : List Delegated)
    → check_delegated b seen item ≡ ok after
    → (is_declared b item ≡ true) × (contains seen item ≡ false) × (after ≡ set_insert item seen)
unfolding check_delegated
delegated_by b seen item after done =
    let both =
      (seq_iff (require_iff _ _ (iff_refl _))
          (seq_iff (require_iff _ _ (not_iff _)) (ok_iff (set_insert item seen) after))).0
        done in
    (both.0, both.1.0, both.1.1)

-- A run over endpoints: each is declared, none was seen before or comes twice.
run_by :
    (b : ModuleBindings) (seen : List Delegated) (items : List Delegated) (after : List Delegated)
    → run_each (check_delegated b) seen items ≡ ok after
    → All (λ item. is_declared b item ≡ true) items
      × All (λ item. contains seen item ≡ false) items
      × AreDistinct items
run_by b seen [] after done = (tt, tt, tt)
run_by b seen (item ∷ rest) after done =
    let first =
      >>=-eq-ok (check_delegated b seen item) (λ s. run_each (check_delegated b) s rest) done in
    let now = delegated_by b seen item first.0 first.1 in
    let later = run_by b first.0 rest after first.2 in
    let outside = outside-set_insert item seen rest (rw (sym now.2) later.1) in
    ((now.0, later.0), (now.1, outside.1), (outside.0, later.2))

children_by :
    (b : ModuleBindings) (seen : List Delegated) (children : Map Bytes PortDelegation)
    (after : List Delegated)
    → run_each (check_child b) seen children ≡ ok after
    → run_each (check_delegated b) seen (delegated_ports children) ≡ ok after
unfolding check_child
children_by b seen [] after done = done
children_by b seen ((name, child) ∷ rest) after done =
    let first =
      >>=-eq-ok (check_child b seen (name, child)) (λ s. run_each (check_child b) s rest) done in
    let own = >>-eq-ok _ (run_each (check_delegated b) seen (delegations child)) first.1 in
    let mine = own.1 in
    run_each-append (check_delegated b) seen (delegations child) (delegated_ports rest)
    ∙ rw mine (children_by b first.0 rest after first.2)

-- In accepted bindings no endpoint is delegated twice, to one child or to two, and each delegated
-- endpoint is declared on its side.
pub validate_delegations-AreDistinct :
    (b : ModuleBindings)
    → validate_bindings b ≡ ok tt
    → AreDistinct (delegated_ports b.children)
      × All (λ item. is_declared b item ≡ true) (delegated_ports b.children)
unfolding validate_delegations
validate_delegations-AreDistinct b done =
    let last = (validate_bindings_parts b done).3 in
    let run = >>=-eq-ok (run_each (check_child b) [] b.children) _ last in
    let flat = children_by b [] b.children run.0 run.1 in
    let all = run_by b [] (delegated_ports b.children) run.0 flat in (all.2, all.0)
