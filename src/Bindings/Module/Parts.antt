-- ===== src/Bindings/Module/Parts.antt =====
-- Accepted bindings passed each part of `ModuleBindings::validate`.
use reiny.Prelude.{◌≡◌, [], ok, run_each, for_each, >>-eq-ok, >>=-eq-ok}
use reiny.Bindings.Types.{ModuleBindings}
use reiny.Bindings.Module.{
  Addresses, validate_identity, check_executable, check_input, check_output, validate_delegations,
  validate_bindings,
}

pub validate_bindings_parts :
    (b : ModuleBindings)
    → validate_bindings b ≡ ok tt
    → (validate_identity b ≡ ok tt)
      × ((addresses : Addresses) × (run_each check_input [] b.inputs ≡ ok addresses))
      × (for_each check_output b.outputs ≡ ok tt)
      × (validate_delegations b ≡ ok tt)
unfolding validate_bindings
validate_bindings_parts b done =
    let head = >>-eq-ok (validate_identity b) _ done in
    let executables = >>=-eq-ok (run_each check_executable [] b.executables) _ head.1 in
    let inputs = >>=-eq-ok (run_each check_input [] b.inputs) _ executables.2 in
    let outputs = >>-eq-ok (for_each check_output b.outputs) (validate_delegations b) inputs.2 in
    (head.0, (inputs.0, inputs.1), outputs.0, outputs.1)
