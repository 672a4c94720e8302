-- ===== src/Bindings/Graph/Total.antt =====
-- `validate_graph` does not panic: it looks up the report of an input only once the report has been
-- found to have it.
use reiny.Prelude.{
  ◌≡◌, ◌≢◌, Option, none, some, List, [], Bytes, ok, err, String, All-map, everywhere, All-of_map,
  >>-ne-err, >>=-ne-err, ok-ne-err, ok_or_then-ne-err, iff_refl, refuse-ne-err, for_each-ne-err,
  run_each-ne-err, for_each_iff, bytes_key,
}
use reiny.Bindings.Types.{EndpointAddress, InputBinding, Replay, Retention}
use reiny.Bindings.ReportTypes.{PortReport, ResponseReport, ReportEntry, ReportErrorCode}
use reiny.Bindings.Report.{panicked, validate_report, declared_input}
use reiny.Bindings.Report.Ports.{IsCompiled, rejected-ne-panicked}
use reiny.Bindings.Report.Matching.{validate_report-eq-ok, validate_report-ne-panicked}
use reiny.Bindings.Graph.{
  Modules, check_member, check_source_output, check_input_sources, check_entry, edge_error,
  check_edge, check_response, check_replay, validate_graph,
}

module _ (entry : ReportEntry) (name : Bytes) (address : EndpointAddress) where
  edge_error-ne-panicked :
      (code : ReportErrorCode) (detail : String)
      → edge_error entry name address code detail ≢ panicked
  edge_error-ne-panicked code detail = rejected-ne-panicked _

  response-ne-panicked :
      (x y : Option ResponseReport)
      → check_response (edge_error entry name address) x y ≢ err panicked
  response-ne-panicked none none = λ h. cc
  response-ne-panicked none (some actual) = λ h. cc
  response-ne-panicked (some expected) none = λ h. cc
  response-ne-panicked (some expected) (some actual) =
      search (>>-ne-err, refuse-ne-err, edge_error-ne-panicked)

  replay-ne-panicked :
      (x : Replay) (y : Retention) → check_replay (edge_error entry name address) x y ≢ err panicked
  replay-ne-panicked Replay.live y = λ h. cc
  replay-ne-panicked Replay.last Retention.last = λ h. cc
  replay-ne-panicked Replay.last Retention.volatile = λ h. cc

  edge-ne-panicked :
      (input output : PortReport)
      → check_edge (edge_error entry name address) input output ≢ err panicked
  unfolding check_edge
  edge-ne-panicked input output =
      search
        (>>-ne-err, refuse-ne-err, edge_error-ne-panicked, response-ne-panicked, replay-ne-panicked)
        depth 12

  source-ne-panicked :
      (modules : Modules) (input : PortReport)
      → check_source_output modules entry name input address ≢ err panicked
  unfolding check_source_output
  source-ne-panicked modules input =
      search (ok_or_then-ne-err, edge_error-ne-panicked, edge-ne-panicked)

member-ne-panicked :
    (modules : Modules) (entry : ReportEntry) → check_member modules entry ≢ err panicked
unfolding check_member
member-ne-panicked modules entry =
    search (>>-ne-err, refuse-ne-err, rejected-ne-panicked, ok-ne-err)

inputs-ne-panicked :
    (modules : Modules) (entry : ReportEntry) (item : Bytes × InputBinding)
    → IsCompiled entry.bindings entry.report.inputs (declared_input item)
    → check_input_sources modules entry item ≢ err panicked
inputs-ne-panicked modules entry (name, binding) compiled =
    let there = compiled.1.0 in
    let body = check_source_output modules entry name compiled.0 in
    rw there (
      for_each-ne-err body binding.sources (
        everywhere binding.sources
          (λ address. source-ne-panicked entry name address modules compiled.0)))

entry-ne-panicked :
    (modules : Modules) (entry : ReportEntry)
    → validate_report entry.bindings entry.report ≡ ok tt
    → check_entry modules entry ≢ err panicked
entry-ne-panicked modules entry accepted =
    let ports = ((validate_report-eq-ok entry.bindings entry.report).0 accepted).1.1.1.1.1.0 in
    for_each-ne-err (check_input_sources modules entry) entry.bindings.inputs (
      All-map _ _ entry.bindings.inputs (inputs-ne-panicked modules entry)
        (All-of_map declared_input _ entry.bindings.inputs ports.1))

-- `validate_graph` does not panic on any graph: every report that it indexes by a declared name has
-- an entry of that name.
pub validate_graph-ne-panicked :
    (entries : List ReportEntry) → validate_graph entries ≢ err panicked
unfolding validate_graph
validate_graph-ne-panicked entries = >>-ne-err _ _ (refuse-ne-err _ _ (rejected-ne-panicked _)) (
    >>=-ne-err _
      (for_each-ne-err _ entries
        (everywhere entries (λ entry. validate_report-ne-panicked entry.bindings entry.report)))
      (λ _ accepted.
        >>=-ne-err _ (run_each-ne-err check_member [] entries member-ne-panicked) (λ modules _.
          for_each-ne-err (check_entry modules) entries (
            All-map _ _ entries (entry-ne-panicked modules) (
              (for_each_iff (λ entry. validate_report entry.bindings entry.report) entries
                  (λ entry. iff_refl _)).0
                accepted)))))
