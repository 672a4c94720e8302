-- ===== src/Bindings/Report/Ports.antt =====
-- What the validation of one side's ports accepts, and that it does not panic.
use reiny.Prelude.{
  ◌≡◌, ◌≢◌, refl, ap, inl, inr, ◌↔◌, Bool, true, false, not, Option, none, some, List, Bytes, Map,
  ok, err, and_iff, seq_iff, require_iff, for_each_iff, ok_or_iff, find?_iff, All-map, >>=-ne-err,
  >>-ne-err, refuse-ne-err, for_each-ne-err, iff_trans, both_iff, ===_iff, bytes_eq_iff, All, get,
  contains_key, keys, Option-cases, bytes_key, list_equal, nat_equal,
}
use reiny.Bindings.Types.{PortKind, EndpointAddress, ModuleBindings, address_equal, contract_equal}
use reiny.Bindings.ReportTypes.{
  PortEndpoint, PortReport, ResponseReport, ReportEntry, ReportError, ReportPortSide,
}
use reiny.Bindings.Report.{
  rejected, panicked, DeclaredPort, declared, actual_ports, declares, name_of, missing_port,
  extra_port, least, check_set, endpoint_matches, response_matches, check_compiled, check_port,
  validate_ports,
}

-- The endpoint that a declared port is compiled to: the exact sources of an input in their order,
-- the module's own address of an output.
abbrev pub expected_endpoint : ModuleBindings → DeclaredPort → PortEndpoint
expected_endpoint b port = elim port.sources [
  | none ↦ PortEndpoint.output (record { namespace = b.endpoint_namespace; port = port.name })
  | some sources ↦ PortEndpoint.input sources
]

-- The response that a contract declares: none for a stream, a name for RPC.
abbrev pub IsResponse : PortKind → Option Bytes → Option ResponseReport → Type 0
IsResponse PortKind.stream declared_name compiled = (declared_name ≡ none) × (compiled ≡ none)
IsResponse PortKind.rpc declared_name compiled =
    (response : ResponseReport) × ((compiled ≡ some response)
      × (declared_name ≡ some response.type_name))

abbrev pub IsMatch : ModuleBindings → DeclaredPort → PortReport → Type 0
IsMatch b port compiled =
    (compiled.endpoint ≡ expected_endpoint b port)
    × ((compiled.contract ≡ port.contract)
        × ((compiled.type_name ≡ port.contract.type_name)
            × IsResponse port.contract.kind port.contract.response compiled.response))

same_address :
    (a : EndpointAddress) (namespace port : Bytes)
    → a.namespace ≡ namespace
    → a.port ≡ port
    → a ≡ record { namespace = namespace; port = port }
same_address a namespace port e f = cc

endpoint_by :
    (b : ModuleBindings) (port : DeclaredPort) (actual : PortEndpoint)
    (sources : Option (List EndpointAddress))
    → (endpoint_matches b port actual sources ≡ true)
      ↔ (actual ≡ expected_endpoint b (record port { sources = sources }))
endpoint_by b port (PortEndpoint.input actual) none = (λ h. cc, λ h. cc)
endpoint_by b port (PortEndpoint.input actual) (some expected) = (
  λ h. ap PortEndpoint.input ((===_iff actual expected).0 h),
  λ h. (===_iff actual expected).1 cc,
)
endpoint_by b port (PortEndpoint.output address) (some expected) = (λ h. cc, λ h. cc)
endpoint_by b port (PortEndpoint.output address) none = (
  λ h.
      let both =
        (and_iff (bytes_eq_iff address.namespace b.endpoint_namespace)
            (bytes_eq_iff address.port port.name)).0
          h in
      ap PortEndpoint.output (same_address address b.endpoint_namespace port.name both.0 both.1),
  λ h.
      (and_iff (bytes_eq_iff address.namespace b.endpoint_namespace)
          (bytes_eq_iff address.port port.name)).1
        (cc, cc),
)

response_matches-IsResponse :
    (kind : PortKind) (name : Option Bytes) (compiled : Option ResponseReport)
    → (response_matches kind name compiled ≡ true) ↔ IsResponse kind name compiled
response_matches-IsResponse PortKind.stream none none = (λ _. (refl, refl), λ _. refl)
response_matches-IsResponse PortKind.stream none (some response) = (λ h. cc, λ h. let e = h.1 in cc)
response_matches-IsResponse PortKind.stream (some name) compiled = (λ h. cc, λ h. let e = h.0 in cc)
response_matches-IsResponse PortKind.rpc none compiled = (λ h. cc, λ h. let e = h.1.1 in cc)
response_matches-IsResponse PortKind.rpc (some name) none = (λ h. cc, λ h. let e = h.1.0 in cc)
response_matches-IsResponse PortKind.rpc (some name) (some response) = (
  λ h. (response, (refl, ap some ((bytes_eq_iff name response.type_name).0 h))),
  λ h. let e = h.1.0 in let f = h.1.1 in (bytes_eq_iff name response.type_name).1 cc,
)

pub check_compiled-eq-ok :
    (b : ModuleBindings) (side : ReportPortSide) (port : DeclaredPort) (compiled : PortReport)
    → (check_compiled b side port compiled ≡ ok tt) ↔ IsMatch b port compiled
unfolding check_compiled
check_compiled-eq-ok b side port compiled =
    seq_iff (require_iff _ _ (endpoint_by b port compiled.endpoint port.sources)) (
      seq_iff (require_iff _ _ (===_iff compiled.contract port.contract)) (
        seq_iff (require_iff _ _ (bytes_eq_iff compiled.type_name port.contract.type_name)) (
          require_iff _ _ (
            response_matches-IsResponse port.contract.kind port.contract.response
              compiled.response))))

-- The compiled port of the name is the one that the contract asks for.
abbrev pub IsCompiled : ModuleBindings → Map Bytes PortReport → DeclaredPort → Type 0
IsCompiled b actual port =
    (compiled : PortReport) × ((get actual port.name ≡ some compiled) × IsMatch b port compiled)

check_port-eq-ok :
    (b : ModuleBindings) (side : ReportPortSide) (actual : Map Bytes PortReport)
    (port : DeclaredPort)
    → (check_port b side actual port ≡ ok tt) ↔ IsCompiled b actual port
check_port-eq-ok b side actual port =
    ok_or_iff (get actual port.name) panicked (check_compiled b side port)
      (check_compiled-eq-ok b side port)

least_iff : (o p : Option Bytes) → (least o p ≡ none) ↔ ((o ≡ none) × (p ≡ none))
least_iff none p = (λ h. (refl, h), λ h. h.1)
least_iff (some a) none = (λ h. cc, λ h. let e = h.0 in cc)
least_iff (some a) (some b) = (λ h. cc, λ h. let e = h.0 in cc)

check_set_iff :
    (b : ModuleBindings) (side : ReportPortSide) (o : Option Bytes)
    → (check_set b side o ≡ ok tt) ↔ (o ≡ none)
check_set_iff b side none = (λ _. refl, λ _. refl)
check_set_iff b side (some name) = (λ h. cc, λ h. cc)

name_of_iff : (o : Option DeclaredPort) → (name_of o ≡ none) ↔ (o ≡ none)
name_of_iff none = (λ _. refl, λ _. refl)
name_of_iff (some port) = (λ h. cc, λ h. cc)

-- Every reported port is declared, and every declared port is compiled.
abbrev pub IsPorts : ModuleBindings → ReportPortSide → Map Bytes PortReport → Type 0
IsPorts b side actual =
    All (λ name. declares b side name ≡ true) (keys actual)
    × All (IsCompiled b actual) (declared b side)

not-eq-false : (b : Bool) → not b ≡ false → b ≡ true
not-eq-false true h = refl
not-eq-false false h = cc

sets_agree :
    (b : ModuleBindings) (side : ReportPortSide) (actual : Map Bytes PortReport)
    → (check_set b side (least (missing_port (declared b side) actual) (extra_port b side actual))
        ≡ ok tt)
      ↔ (All (λ port. not (contains_key actual port.name) ≡ false) (declared b side)
          × All (λ name. not (declares b side name) ≡ false) (keys actual))
sets_agree b side actual =
    iff_trans
      (check_set_iff b side
        (least (missing_port (declared b side) actual) (extra_port b side actual)))
      (iff_trans (least_iff (missing_port (declared b side) actual) (extra_port b side actual)) (
        both_iff
          (iff_trans (name_of_iff _)
            (find?_iff (λ port. not (contains_key actual port.name)) (declared b side)))
          (find?_iff (λ name. not (declares b side name)) (keys actual))))

declared_is_there :
    (b : ModuleBindings) (actual : Map Bytes PortReport) (port : DeclaredPort)
    → IsCompiled b actual port
    → not (contains_key actual port.name) ≡ false
declared_is_there b actual port compiled = let there = compiled.1.0 in rw there refl

pub validate_ports-eq-ok :
    (entry : ReportEntry) (side : ReportPortSide)
    → (validate_ports entry side ≡ ok tt)
      ↔ IsPorts entry.bindings side (actual_ports entry.report side)
unfolding validate_ports
validate_ports-eq-ok entry side =
    let b = entry.bindings in
    let actual = actual_ports entry.report side in
    let both = seq_iff (sets_agree b side actual) (
      for_each_iff (check_port b side actual) (declared b side) (check_port-eq-ok b side actual)) in
    (
      λ done.
          let all = both.0 done in
          (All-map _ _ (keys actual) (λ name. not-eq-false (declares b side name)) all.0.1, all.1),
      λ all. both.1 (
        (
          All-map _ _ (declared b side) (declared_is_there b actual) all.1,
          All-map _ _ (keys actual) (λ name there. ap not there) all.0,
        ),
        all.1,
      ),
    )

pub rejected-ne-panicked : (error : ReportError) → rejected error ≢ panicked
rejected-ne-panicked error = λ h. cc

compiled-ne-panicked :
    (b : ModuleBindings) (side : ReportPortSide) (port : DeclaredPort) (compiled : PortReport)
    → check_compiled b side port compiled ≢ err panicked
unfolding check_compiled
compiled-ne-panicked b side port compiled = search (>>-ne-err, refuse-ne-err, rejected-ne-panicked)

check_set-ne-panicked :
    (b : ModuleBindings) (side : ReportPortSide) (o : Option Bytes)
    → check_set b side o ≢ err panicked
check_set-ne-panicked b side none = λ h. cc
check_set-ne-panicked b side (some name) = λ h. cc

check_port-ne-panicked :
    (b : ModuleBindings) (side : ReportPortSide) (actual : Map Bytes PortReport)
    (port : DeclaredPort)
    → not (contains_key actual port.name) ≡ false
    → check_port b side actual port ≢ err panicked
check_port-ne-panicked b side actual port there = elim (Option-cases (get actual port.name)) [
  | inl absent ↦ let gone : not (contains_key actual port.name) ≡ true = rw absent refl in λ h. cc
  | inr found ↦ let e = found.1 in rw e (compiled-ne-panicked b side port found.0)
]

-- The lookup of a declared port's report does not panic.
pub validate_ports-ne-panicked :
    (entry : ReportEntry) (side : ReportPortSide) → validate_ports entry side ≢ err panicked
unfolding validate_ports
validate_ports-ne-panicked entry side =
    let b = entry.bindings in
    let actual = actual_ports entry.report side in
    >>=-ne-err _
      (check_set-ne-panicked b side
        (least (missing_port (declared b side) actual) (extra_port b side actual)))
      (λ done passed. for_each-ne-err (check_port b side actual) (declared b side) (
        All-map _ _ (declared b side) (check_port-ne-panicked b side actual)
          ((sets_agree b side actual).0 passed).0))
