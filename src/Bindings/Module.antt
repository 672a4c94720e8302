-- ===== src/Bindings/Module.antt =====
-- `ModuleBindings::validate` and `validate_delegations` of crates/reiny-core/src/bindings.rs.
pub mod Parts
pub mod Identity
pub mod Delegation
pub mod Sources
use reiny.Prelude.{
  Bool, true, false, not, ◌&&◌, ◌||◌, ◌≡◌, Option, none, some, List, [], ◌∷◌, ◌++◌, Bytes, codes,
  Map, Result, ok, ◌>>◌, ◌>>=◌, for_each, run_each, is_none_or, is_some_and, ◌==◌, length, ◌===◌,
  Key, get, insert, contains, contains_key, set_insert, bytes_eq, bytes_lt, strip_prefix,
  contains_byte, is_empty, map, pair_equal, list_equal, nat_equal, bool_equal, option_equal,
  bytes_key, if◌then◌else◌,
}
use reiny.Bindings.Types.{
  module_bindings_version, PortKind, EndpointContract, EndpointAddress, InputBinding, OutputBinding,
  PortDelegation, ModuleBindings, BindingError, kind_equal, address_key,
}
use reiny.Bindings.Names.{require, segment, is_dots, validate_namespace, validate_port_name}
use reiny.Bindings.Contract.{validate_address, validate_contract}

abbrev pub is_nil : {A : Type 0} → List A → Bool
is_nil [] = true
is_nil (a ∷ rest) = false

-- `self.namespace.strip_prefix(&format!("{}/owned/", self.endpoint_namespace))`
unfoldable pub owned_child : ModuleBindings → Option Bytes
owned_child b = strip_prefix (b.endpoint_namespace ++ codes "/owned/") b.namespace

unfoldable pub validate_identity : ModuleBindings → Result BindingError (Unit {0})
validate_identity b = do
  require (b.version == module_bindings_version) "unsupported module bindings version"
  validate_namespace b.namespace
  validate_namespace b.endpoint_namespace
  require
      (bytes_eq b.namespace b.endpoint_namespace
        || is_some_and (owned_child b)
            (λ child. not (is_empty child) && not (contains_byte b'/' child)))
      "endpoint namespace must be the module or its owning host"
  require (bytes_eq b.namespace b.endpoint_namespace || is_nil b.children)
      "owned children cannot delegate endpoints"

-- A round of `for executable in &self.executables`, with the names of the rounds before.
unfoldable pub check_executable : List Bytes → Bytes → Result BindingError (List Bytes)
check_executable executables executable = do
  require (segment executable && not (is_dots executable) && not (contains executables executable))
      "invalid or duplicate executable"
  ok (set_insert executable executables)

-- What two inputs that name one source must agree on.
abbrev pub SourceContract : Type 0
SourceContract = Bytes × (Option Bytes × (Bool × Map Bytes Bytes))

abbrev pub source_contract : EndpointContract → SourceContract
source_contract contract =
    (contract.type_name, (contract.response, (contract.kind === PortKind.rpc, contract.semantics)))

abbrev pub Addresses : Type 0
Addresses = Map EndpointAddress SourceContract

-- A round of `for source in &port.sources`, with `unique` and `addresses`.
unfoldable pub check_source :
    EndpointContract
    → List EndpointAddress × Addresses
    → EndpointAddress
    → Result BindingError (List EndpointAddress × Addresses)
check_source contract (unique, addresses) source = do
  validate_address source
  require (not (contains unique source)) "duplicate input source"
  require (is_none_or (get addresses source) (λ previous. previous === source_contract contract))
      "incompatible contracts for one source endpoint"
  ok (set_insert source unique, insert source (source_contract contract) addresses)

-- A round of `for (name, port) in &self.inputs`.
unfoldable pub check_input : Addresses → Bytes × InputBinding → Result BindingError Addresses
unfolding check_source
check_input addresses (name, port) = do
  validate_port_name name
  validate_contract port.contract true
  require (not (is_nil port.sources)) "input requires exact sources"
  require (not (port.contract.kind === PortKind.rpc) || length port.sources == 1)
      "RPC input requires exactly one source"
  let start : List EndpointAddress × Addresses = ([], addresses)
  after ← run_each (check_source port.contract) start port.sources
  ok after.1

-- A round of `for (name, port) in &self.outputs`.
unfoldable pub check_output : Bytes × OutputBinding → Result BindingError (Unit {0})
check_output (name, port) = do validate_port_name name; validate_contract port.contract false

-- A delegated port, and whether it is an input.
abbrev pub Delegated : Type 0
Delegated = Bytes × Bool

abbrev pub delegated_before : Delegated → Delegated → Bool
delegated_before a b = bytes_lt a.0 b.0 || (bytes_eq a.0 b.0 && not a.1 && b.1)

instance abbrev pub delegated_key : Key Delegated
delegated_key = record { same = ◌===◌; before = delegated_before; same_iff = pair_equal.eq_iff }

abbrev pub delegations : PortDelegation → List Delegated
delegations child =
    map (λ port. (port, true)) child.inputs ++ map (λ port. (port, false)) child.outputs

abbrev pub is_declared : ModuleBindings → Delegated → Bool
is_declared b (port, input) =
    if input then contains_key b.inputs port else contains_key b.outputs port

unfoldable pub check_delegated :
    ModuleBindings → List Delegated → Delegated → Result BindingError (List Delegated)
check_delegated b delegated item = do
  require (is_declared b item) "child delegates undefined endpoint"
  require (not (contains delegated item)) "endpoint delegated more than once"
  ok (set_insert item delegated)

-- A round of `for (name, child) in &self.children`.
unfoldable pub check_child :
    ModuleBindings → List Delegated → Bytes × PortDelegation → Result BindingError (List Delegated)
check_child b delegated (name, child) = do
  require (segment name && not (is_dots name)) "invalid owned child name"
  run_each (check_delegated b) delegated (delegations child)

unfoldable pub validate_delegations : ModuleBindings → Result BindingError (Unit {0})
validate_delegations b = do delegated ← run_each (check_child b) [] b.children; ok tt

unfoldable pub validate_bindings : ModuleBindings → Result BindingError (Unit {0})
validate_bindings b = do
  validate_identity b
  executables ← run_each check_executable [] b.executables
  addresses ← run_each check_input [] b.inputs
  for_each check_output b.outputs
  validate_delegations b
