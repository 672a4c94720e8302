-- ===== src/Bindings/Graph.antt =====
-- `validate_graph` of crates/reiny-core/src/bindings/report.rs.
pub mod Edges
pub mod Index
pub mod Closed
pub mod Total
use reiny.Prelude.{
  ℕ, Bool, true, false, not, Option, none, some, List, [], ◌∷◌, Bytes, codes, Map, Result, ok, err,
  refuse, ok_or, ◌>>◌, ◌>>=◌, for_each, run_each, ◌==◌, ◌===◌, get, insert, contains_key, bytes_eq,
  list_equal, nat_equal, pair_equal, bytes_key, String,
}
use reiny.Bindings.Types.{EndpointAddress, InputBinding, kind_equal, Replay, Retention}
use reiny.Bindings.ReportTypes.{
  PortReport, ResponseReport, ModuleReport, ReportEntry, ReportErrorCode, ReportPortSide,
}
use reiny.Bindings.Module.{is_nil}
use reiny.Bindings.Report.{Failure, rejected, new_error, at, index, validate_report}

abbrev pub Modules : Type 0
Modules = Map Bytes ModuleReport

-- A round of the loop that indexes the modules by namespace.
unfoldable pub check_member : Modules → ReportEntry → Result Failure Modules
check_member modules entry = do
  let b = entry.bindings
  refuse (not (bytes_eq b.namespace b.endpoint_namespace)) (
      rejected (
        new_error ReportErrorCode.unsupported_graph_member (some b.namespace)
          (codes "aggregate an owned child's report into its parent")))
  refuse (contains_key modules b.namespace) (
      rejected (
        new_error ReportErrorCode.duplicate_namespace (some b.namespace)
          (codes "module namespace is repeated")))
  ok (insert b.namespace entry.report modules)

-- The closure `error` of the innermost loop.
abbrev pub edge_error : ReportEntry → Bytes → EndpointAddress → ReportErrorCode → String → Failure
edge_error entry name address code detail =
    let base = new_error code (some entry.bindings.namespace) (codes detail) in
    rejected (record (at ReportPortSide.input name base) { source = some address })

abbrev pub check_response :
    (ReportErrorCode → String → Failure)
    → Option ResponseReport
    → Option ResponseReport
    → Result Failure (Unit {0})
check_response error none none = ok tt
check_response error (some expected) (some actual) = do
  refuse (not (bytes_eq expected.type_name actual.type_name))
      (error ReportErrorCode.response "source response name differs")
  refuse (not (expected.schema == actual.schema))
      (error ReportErrorCode.schema "source response fingerprint differs")
check_response error _ _ = err (error ReportErrorCode.response "source response shape differs")

abbrev pub check_replay :
    (ReportErrorCode → String → Failure) → Replay → Retention → Result Failure (Unit {0})
check_replay error Replay.last Retention.volatile =
    err (error ReportErrorCode.policy "source does not retain replayable samples")
check_replay error _ _ = ok tt

-- What is compared once the source output is found.
unfoldable pub check_edge :
    (ReportErrorCode → String → Failure) → PortReport → PortReport → Result Failure (Unit {0})
check_edge error input output = do
  refuse (not (bytes_eq input.type_name output.type_name))
      (error ReportErrorCode.ty "source message or request name differs")
  refuse (not (input.schema == output.schema))
      (error ReportErrorCode.schema "source message or request fingerprint differs")
  refuse (not (input.contract.kind === output.contract.kind))
      (error ReportErrorCode.policy "source endpoint kind differs")
  refuse (not (input.contract.semantics === output.contract.semantics))
      (error ReportErrorCode.semantics "source semantic assertions differ")
  check_response error input.response output.response
  check_replay error input.contract.replay output.contract.retention

-- A round of `for address in &binding.sources`.
unfoldable pub check_source_output :
    Modules → ReportEntry → Bytes → PortReport → EndpointAddress → Result Failure (Unit {0})
check_source_output modules entry name input address = do
  let error = edge_error entry name address
  source ←
      ok_or (get modules address.namespace)
        (error ReportErrorCode.missing_source_module "source module is absent")
  output ←
      ok_or (get source.outputs address.port)
        (error ReportErrorCode.missing_source_port "source output is absent")
  check_edge error input output

-- A round of `for (name, binding) in &entry.bindings.inputs`.
abbrev pub check_input_sources :
    Modules → ReportEntry → Bytes × InputBinding → Result Failure (Unit {0})
check_input_sources modules entry (name, binding) = do
  input ← index entry.report.inputs name
  for_each (check_source_output modules entry name input) binding.sources

abbrev pub check_entry : Modules → ReportEntry → Result Failure (Unit {0})
check_entry modules entry = for_each (check_input_sources modules entry) entry.bindings.inputs

unfoldable pub validate_graph : List ReportEntry → Result Failure (Unit {0})
validate_graph entries = do
  refuse (is_nil entries) (
      rejected
        (new_error ReportErrorCode.empty_graph none (codes "a closed graph requires a module")))
  for_each (λ entry. validate_report entry.bindings entry.report) entries
  modules ← run_each check_member [] entries
  for_each (check_entry modules) entries
