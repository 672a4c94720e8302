-- ===== src/Bindings/Report.antt =====
-- `validate_report` and `validate_ports` of crates/reiny-core/src/bindings/report.rs. Indexing a map
-- at a key that it lacks panics, which is an outcome of its own here.
pub mod Ports
pub mod Matching
use reiny.Prelude.{
  ℕ, Bool, true, false, not, ◌&&◌, Option, none, some, List, [], ◌∷◌, ◌++◌, Bytes, codes, Map,
  Result, ok, err, refuse, ok_or, ◌>>◌, ◌>>=◌, for_each, ◌==◌, ◌===◌, get, contains_key, keys,
  bytes_eq, bytes_lt, find?, map, list_equal, nat_equal, bytes_key, if◌then◌else◌, String,
}
use reiny.Core.{schema_fingerprint_version}
use reiny.Bindings.Types.{
  PortKind, EndpointContract, EndpointAddress, InputBinding, OutputBinding, ModuleBindings,
  address_equal, contract_equal, BindingError,
}
use reiny.Bindings.ReportTypes.{
  module_report_version, PortEndpoint, PortReport, ResponseReport, ModuleReport, ReportEntry,
  ReportErrorCode, ReportPortSide, ReportError,
}
use reiny.Bindings.Module.{validate_bindings}

pub data Failure : Type 0 where
  rejected : ReportError → Failure
  panicked : Failure

-- `ReportError::new`
abbrev pub new_error : ReportErrorCode → Option Bytes → Bytes → ReportError
new_error code module_name detail = record {
  code = code;
  module_name = module_name;
  side = none;
  port = none;
  source = none;
  detail = detail;
}

-- `ReportError::at`
abbrev pub at : ReportPortSide → Bytes → ReportError → ReportError
at side port error = record error { side = some side; port = some port }

-- `m[key]`
abbrev pub index : {V : Type 0} → Map Bytes V → Bytes → Result Failure V
index m key = ok_or (get m key) panicked

-- `if !valid { return Err(error(code, detail)) }` of `validate_report`.
abbrev pub check_head : ModuleBindings → Bool → ReportErrorCode → String → Result Failure (Unit {0})
check_head b valid code detail =
    refuse (not valid) (rejected (new_error code (some b.namespace) (codes detail)))

-- `bindings.validate().map_err(...)?`
abbrev pub invalid_bindings :
    ModuleBindings → Result BindingError (Unit {0}) → Result Failure (Unit {0})
invalid_bindings b (ok done) = ok done
invalid_bindings b (err failure) =
    err (rejected (new_error ReportErrorCode.invalid_bindings (some b.namespace) failure.message))

-- An item of `declared` in `validate_ports`: name, contract, and the sources of an input.
pub record DeclaredPort : Type 0 where
  pub name : Bytes
  pub contract : EndpointContract
  pub sources : Option (List EndpointAddress)

abbrev pub declared_input : Bytes × InputBinding → DeclaredPort
declared_input (name, binding) = record {
  name = name;
  contract = binding.contract;
  sources = some binding.sources;
}

abbrev pub declared_output : Bytes × OutputBinding → DeclaredPort
declared_output (name, binding) = record {
  name = name;
  contract = binding.contract;
  sources = none;
}

abbrev pub declared : ModuleBindings → ReportPortSide → List DeclaredPort
declared b ReportPortSide.input = map declared_input b.inputs
declared b ReportPortSide.output = map declared_output b.outputs

abbrev pub actual_ports : ModuleReport → ReportPortSide → Map Bytes PortReport
actual_ports report ReportPortSide.input = report.inputs
actual_ports report ReportPortSide.output = report.outputs

abbrev pub declares : ModuleBindings → ReportPortSide → Bytes → Bool
declares b ReportPortSide.input name = contains_key b.inputs name
declares b ReportPortSide.output name = contains_key b.outputs name

-- `.map(|(name, _, _)| name)`
abbrev pub name_of : Option DeclaredPort → Option Bytes
name_of none = none
name_of (some port) = some port.name

abbrev pub missing_port : List DeclaredPort → Map Bytes PortReport → Option Bytes
missing_port ports actual = name_of (find? (λ port. not (contains_key actual port.name)) ports)

abbrev pub extra_port : ModuleBindings → ReportPortSide → Map Bytes PortReport → Option Bytes
extra_port b side actual = find? (λ name. not (declares b side name)) (keys actual)

-- `missing.into_iter().chain(extra).min()`
abbrev pub least : Option Bytes → Option Bytes → Option Bytes
least none other = other
least (some a) none = some a
least (some a) (some b) = some (if bytes_lt b a then b else a)

abbrev pub port_error : ModuleBindings → ReportPortSide → Bytes → ReportErrorCode → String → Failure
port_error b side name code detail =
    rejected (at side name (new_error code (some b.namespace) (codes detail)))

abbrev pub check_set : ModuleBindings → ReportPortSide → Option Bytes → Result Failure (Unit {0})
check_set b side none = ok tt
check_set b side (some name) =
    err (port_error b side name ReportErrorCode.port_set "declared and compiled port sets differ")

abbrev pub endpoint_matches :
    ModuleBindings → DeclaredPort → PortEndpoint → Option (List EndpointAddress) → Bool
endpoint_matches b port (PortEndpoint.input actual) (some expected) = actual === expected
endpoint_matches b port (PortEndpoint.output address) none =
    bytes_eq address.namespace b.endpoint_namespace && bytes_eq address.port port.name
endpoint_matches b port _ _ = false

abbrev pub response_matches : PortKind → Option Bytes → Option ResponseReport → Bool
response_matches PortKind.stream none none = true
response_matches PortKind.rpc (some expected) (some response) = bytes_eq expected response.type_name
response_matches _ _ _ = false

-- A round of `for (name, contract, sources) in declared`, at the compiled port of the name.
unfoldable pub check_compiled :
    ModuleBindings → ReportPortSide → DeclaredPort → PortReport → Result Failure (Unit {0})
check_compiled b side port compiled = do
  let error = port_error b side port.name
  refuse (not (endpoint_matches b port compiled.endpoint port.sources))
      (error ReportErrorCode.endpoint "compiled endpoint differs from its binding")
  refuse (not (compiled.contract === port.contract))
      (error ReportErrorCode.contract "effective contract differs from its declaration")
  refuse (not (bytes_eq compiled.type_name port.contract.type_name))
      (error ReportErrorCode.ty "compiled message or request name differs")
  refuse (not (response_matches port.contract.kind port.contract.response compiled.response))
      (error ReportErrorCode.response "compiled response shape or name differs")

abbrev pub check_port :
    ModuleBindings
    → ReportPortSide
    → Map Bytes PortReport
    → DeclaredPort
    → Result Failure (Unit {0})
check_port b side actual port = do
  compiled ← index actual port.name
  check_compiled b side port compiled

unfoldable pub validate_ports : ReportEntry → ReportPortSide → Result Failure (Unit {0})
validate_ports entry side = do
  let b = entry.bindings
  let actual = actual_ports entry.report side
  check_set b side (least (missing_port (declared b side) actual) (extra_port b side actual))
  for_each (check_port b side actual) (declared b side)

unfoldable pub validate_report : ModuleBindings → ModuleReport → Result Failure (Unit {0})
validate_report b report = do
  invalid_bindings b (validate_bindings b)
  check_head b (report.version == module_report_version) ReportErrorCode.report_version
      "unsupported report version"
  check_head b (report.fingerprint_version == schema_fingerprint_version)
      ReportErrorCode.fingerprint_version "unsupported fingerprint version"
  check_head b (bytes_eq report.namespace b.namespace) ReportErrorCode.namespace
      "report namespace differs from bindings"
  check_head b (bytes_eq report.endpoint_namespace b.endpoint_namespace)
      ReportErrorCode.endpoint_namespace "report endpoint namespace differs from bindings"
  let entry : ReportEntry = record { bindings = b; report = report }
  validate_ports entry ReportPortSide.input
  validate_ports entry ReportPortSide.output
