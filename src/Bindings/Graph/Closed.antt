-- ===== src/Bindings/Graph/Closed.antt =====
-- An accepted graph is closed: every source of every input is an output of a module of the graph.
use mathlib.Core.Path.{fun_ext}
use reiny.Prelude.{
  ◌≡◌, ◌↔◌, refl, sym, false, Option, some, List, [], Bytes, ok, ◌>>=◌, for_each, run_each, seq_iff,
  refuse_iff, for_each_iff, ok_or_iff, iff_refl, All, get, >>=-eq-ok, bytes_key,
}
use reiny.Bindings.Types.{EndpointAddress, InputBinding}
use reiny.Bindings.ReportTypes.{PortReport, ModuleReport, ReportEntry}
use reiny.Bindings.Module.{validate_bindings, is_nil}
use reiny.Bindings.Report.{validate_report}
use reiny.Bindings.Report.Matching.{IsReport, validate_report-eq-ok}
use reiny.Bindings.Graph.{
  Modules, check_member, check_source_output, check_input_sources, check_entry, edge_error,
  validate_graph,
}
use reiny.Bindings.Graph.Edges.{IsCompatible, check_edge-eq-ok}
use reiny.Bindings.Graph.Index.{report_at, AreTopLevel, indexed, index_iff, get-index}

-- The source is a reported output, compatible with the input.
abbrev pub IsSupplied : Option ModuleReport → PortReport → EndpointAddress → Type 0
IsSupplied found input address =
    (source : ModuleReport) × ((found ≡ some source)
      × ((output : PortReport) × ((get source.outputs address.port ≡ some output)
            × IsCompatible input output)))

-- Every source of the binding supplies the input that is compiled under its name.
abbrev pub IsFed : (Bytes → Option ModuleReport) → ReportEntry → Bytes × InputBinding → Type 0
IsFed reports entry (name, binding) =
    (input : PortReport) × ((get entry.report.inputs name ≡ some input)
      × All (λ address. IsSupplied (reports address.namespace) input address) binding.sources)

abbrev pub AreFed : (Bytes → Option ModuleReport) → List ReportEntry → Type 0
AreFed reports entries = All (λ entry. All (IsFed reports entry) entry.bindings.inputs) entries

-- Accepted modules of different namespaces, in which every input is fed from inside the graph.
abbrev pub IsClosedGraph : List ReportEntry → Type 0
IsClosedGraph entries =
    All (λ entry. (validate_bindings entry.bindings ≡ ok tt) × IsReport entry.bindings entry.report)
      entries
    × (AreTopLevel entries × AreFed (report_at entries) entries)

source_iff :
    (modules : Modules) (entry : ReportEntry) (name : Bytes) (input : PortReport)
    (address : EndpointAddress)
    → (check_source_output modules entry name input address ≡ ok tt)
      ↔ IsSupplied (get modules address.namespace) input address
unfolding check_source_output
source_iff modules entry name input address = ok_or_iff _ _ _ (λ source.
    ok_or_iff _ _ _ (λ output. check_edge-eq-ok (edge_error entry name address) input output))

entry_iff :
    (modules : Modules) (entry : ReportEntry)
    → (check_entry modules entry ≡ ok tt) ↔ All (IsFed (get modules) entry) entry.bindings.inputs
entry_iff modules entry =
    for_each_iff (check_input_sources modules entry) entry.bindings.inputs (λ item.
      ok_or_iff _ _ _ (λ input.
        for_each_iff (check_source_output modules entry item.0 input) item.1.sources
          (source_iff modules entry item.0 input)))

edges_iff :
    (modules : Modules) (entries : List ReportEntry)
    → (for_each (check_entry modules) entries ≡ ok tt) ↔ AreFed (get modules) entries
edges_iff modules entries = for_each_iff (check_entry modules) entries (entry_iff modules)

-- The loop over the edges, behind the one that builds the index.
graph_iff :
    (entries : List ReportEntry)
    → ((run_each check_member [] entries >>= λ modules. for_each (check_entry modules) entries)
        ≡ ok tt)
      ↔ (AreTopLevel entries × AreFed (report_at entries) entries)
graph_iff entries = (
  λ done.
      let run = >>=-eq-ok _ (λ modules. for_each (check_entry modules) entries) done in
      let indexed_by = (index_iff entries run.0).0 run.1 in
      let same = indexed_by.1 in
      let fed : AreFed (get (indexed [] entries)) entries =
        rw (sym same) ((edges_iff run.0 entries).0 run.2) in
      (
        indexed_by.0,
        rw (sym (fun_ext (λ namespace. get-index entries namespace indexed_by.0))) fed,
      ),
  λ closed.
      let run = (index_iff entries (indexed [] entries)).1 (closed.0, refl) in
      let fed : AreFed (get (indexed [] entries)) entries =
        rw (fun_ext (λ namespace. get-index entries namespace closed.0)) closed.1 in
      rw run ((edges_iff (indexed [] entries) entries).1 fed),
)

-- `validate_graph` accepts exactly the closed graphs: there is a module; the bindings of each are
-- accepted and its report matches them; the modules are of pairwise different namespaces and none is
-- an owned child; and each source of each input is a reported output of a module of the graph, with
-- the type, schema, kind, semantics and response of the input, which retains what the input replays.
pub validate_graph-eq-ok :
    (entries : List ReportEntry)
    → (validate_graph entries ≡ ok tt) ↔ ((is_nil entries ≡ false) × IsClosedGraph entries)
unfolding validate_graph
validate_graph-eq-ok entries = seq_iff (refuse_iff _ _ (iff_refl _)) (
    seq_iff
      (for_each_iff (λ entry. validate_report entry.bindings entry.report) entries
        (λ entry. validate_report-eq-ok entry.bindings entry.report))
      (graph_iff entries))
