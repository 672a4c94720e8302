-- ===== src/Tests/BindingsRuns.antt =====
-- The validation of bindings, reports and graphs on concrete inputs.
use reiny.Prelude.{
  ◌≡◌, ◌≢◌, ◌↔◌, ◌⊎◌, refl, true, false, none, some, ok, err, Result, Option, All, AreDistinct,
  bytes_eq, has_space, after_space, split, strip_prefix, insert, bytes_lt, is_blank,
  is_ascii_alphanumeric, is_ascii_digit,
}
use reiny.Bindings.Types.{module_bindings_version}
use reiny.Bindings.ReportTypes.{ReportErrorCode}
use reiny.Bindings.Names.{
  segment, type_name, validate_namespace, validate_port_name, validate_semantics,
}
use reiny.Bindings.Contract.{validate_address, validate_contract}
use reiny.Bindings.Module.{
  Addresses, delegated_key, is_declared, is_nil, owned_child, validate_identity, check_executable,
  check_source, check_input, check_output, check_delegated, check_child, validate_delegations,
  validate_bindings,
}
use reiny.Bindings.Module.Identity.{IsOwned, validate_bindings-IsOwned}
use reiny.Bindings.Module.Delegation.{delegated_ports, validate_delegations-AreDistinct}
use reiny.Bindings.Module.Sources.{IsSourced, validate_bindings-IsSourced}
use reiny.Bindings.Report.{
  Failure, panicked, rejected, check_compiled, validate_ports, validate_report,
}
use reiny.Bindings.Report.Matching.{IsReport, validate_report-eq-ok}
use reiny.Bindings.Graph.{check_member, check_edge, check_source_output, validate_graph}
use reiny.Bindings.Graph.Closed.{IsClosedGraph, validate_graph-eq-ok}
use reiny.Bindings.Graph.Total.{validate_graph-ne-panicked}
use reiny.Tests.Modules.{control_bindings, control_report, robot, lonely}

control_bindings-accepted : validate_bindings control_bindings ≡ ok tt
unfolding validate_bindings validate_identity owned_child check_executable check_source check_input
    check_output check_delegated check_child validate_delegations validate_address validate_contract
    segment type_name validate_namespace validate_port_name validate_semantics has_space after_space
    split strip_prefix is_blank bytes_eq is_ascii_alphanumeric is_ascii_digit
control_bindings-accepted = refl

robot-accepted : validate_graph robot ≡ ok tt
unfolding validate_graph validate_report validate_ports check_compiled insert bytes_lt check_member
    check_edge check_source_output validate_bindings validate_identity owned_child check_executable
    check_source check_input check_output check_delegated check_child validate_delegations
    validate_address validate_contract segment type_name validate_namespace validate_port_name
    validate_semantics has_space after_space split strip_prefix is_blank bytes_eq
    is_ascii_alphanumeric is_ascii_digit
robot-accepted = refl

validate_bindings-IsOwned_example :
    (control_bindings.version ≡ module_bindings_version)
    × ((validate_namespace control_bindings.namespace ≡ ok tt)
        × ((control_bindings.namespace ≡ control_bindings.endpoint_namespace)
            ⊎ IsOwned control_bindings))
validate_bindings-IsOwned_example =
    validate_bindings-IsOwned control_bindings control_bindings-accepted

validate_delegations-AreDistinct_example :
    AreDistinct (delegated_ports control_bindings.children)
    × All
        (λ item. is_declared control_bindings item ≡ true)
        (delegated_ports control_bindings.children)
validate_delegations-AreDistinct_example =
    validate_delegations-AreDistinct control_bindings control_bindings-accepted

validate_bindings-IsSourced_example :
    (addresses : Addresses) × All (IsSourced addresses) control_bindings.inputs
validate_bindings-IsSourced_example =
    validate_bindings-IsSourced control_bindings control_bindings-accepted

validate_report-eq-ok_example :
    (validate_report control_bindings control_report ≡ ok tt)
    ↔ ((validate_bindings control_bindings ≡ ok tt) × IsReport control_bindings control_report)
validate_report-eq-ok_example = validate_report-eq-ok control_bindings control_report

validate_graph-eq-ok_example :
    (validate_graph robot ≡ ok tt) ↔ ((is_nil robot ≡ false) × IsClosedGraph robot)
validate_graph-eq-ok_example = validate_graph-eq-ok robot

validate_graph-ne-panicked_example : validate_graph lonely ≢ err panicked
validate_graph-ne-panicked_example = validate_graph-ne-panicked lonely

abbrev refusal : Result Failure (Unit {0}) → Option ReportErrorCode
refusal (err (rejected error)) = some error.code
refusal _ = none

-- A source outside the graph.
lonely-refused : refusal (validate_graph lonely) ≡ some ReportErrorCode.missing_source_module
unfolding validate_graph validate_report validate_ports check_compiled insert bytes_lt check_member
    check_edge check_source_output validate_bindings validate_identity owned_child check_executable
    check_source check_input check_output check_delegated check_child validate_delegations
    validate_address validate_contract segment type_name validate_namespace validate_port_name
    validate_semantics has_space after_space split strip_prefix is_blank bytes_eq
    is_ascii_alphanumeric is_ascii_digit
lonely-refused = refl
