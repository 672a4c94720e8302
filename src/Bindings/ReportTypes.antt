-- ===== src/Bindings/ReportTypes.antt =====
-- The compiled reports of crates/reiny-core/src/bindings.rs and the errors of their validation.
use reiny.Prelude.{ℕ, Option, List, Bytes, Map}
use reiny.Bindings.Types.{EndpointAddress, EndpointContract, ModuleBindings}

abbrev pub module_report_version : ℕ
module_report_version = 3

pub data PortEndpoint : Type 0 where
  input : List EndpointAddress → PortEndpoint
  output : EndpointAddress → PortEndpoint

pub record ResponseReport : Type 0 where
  pub type_name : Bytes
  pub schema : ℕ

pub record PortReport : Type 0 where
  pub endpoint : PortEndpoint
  pub type_name : Bytes
  pub schema : ℕ
  pub contract : EndpointContract
  pub response : Option ResponseReport

pub record ModuleReport : Type 0 where
  pub version : ℕ
  pub fingerprint_version : ℕ
  pub namespace : Bytes
  pub endpoint_namespace : Bytes
  pub inputs : Map Bytes PortReport
  pub outputs : Map Bytes PortReport

pub record ReportEntry : Type 0 where
  pub bindings : ModuleBindings
  pub report : ModuleReport

pub data ReportErrorCode : Type 0 where
  empty_graph : ReportErrorCode
  invalid_bindings : ReportErrorCode
  unsupported_graph_member : ReportErrorCode
  duplicate_namespace : ReportErrorCode
  report_version : ReportErrorCode
  fingerprint_version : ReportErrorCode
  namespace : ReportErrorCode
  endpoint_namespace : ReportErrorCode
  port_set : ReportErrorCode
  endpoint : ReportErrorCode
  contract : ReportErrorCode
  ty : ReportErrorCode
  response : ReportErrorCode
  missing_source_module : ReportErrorCode
  missing_source_port : ReportErrorCode
  schema : ReportErrorCode
  policy : ReportErrorCode
  semantics : ReportErrorCode

pub data ReportPortSide : Type 0 where
  input : ReportPortSide
  output : ReportPortSide

pub record ReportError : Type 0 where
  pub code : ReportErrorCode
  pub module_name : Option Bytes
  pub side : Option ReportPortSide
  pub port : Option Bytes
  pub source : Option EndpointAddress
  pub detail : Bytes
