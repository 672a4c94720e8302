-- ===== src/Bindings/Module/Sources.antt =====
-- What accepted bindings say of the sources of the inputs.
use reiny.Prelude.{
  ℕ, ◌≡◌, ◌⊎◌, length, ==_iff, refl, sym, ap, ◌∙◌, Bool, true, false, not, ◌||◌, ◌==◌, Option, none,
  some, List, [], ◌∷◌, Bytes, Map, ok, run_each, All, All-map, AreDistinct, contains, set_insert,
  get, insert, get-insert_hit, get-insert_other, same_key, same_key_refl, same_key-eq, require_iff,
  seq_iff, ok_iff, iff_refl, not_iff, outside-set_insert, >>-eq-ok, >>=-eq-ok, Bool-cases, inl, inr,
  is_none_or, ◌===◌, ===_iff, list_equal, nat_equal, bool_equal, option_equal, pair_equal,
}
use reiny.Bindings.Types.{
  PortKind, EndpointContract, EndpointAddress, InputBinding, ModuleBindings, address_key,
  kind_equal,
}
use reiny.Bindings.Contract.{validate_address, validate_contract}
use reiny.Bindings.Names.{validate_port_name}
use reiny.Bindings.Module.{
  Addresses, SourceContract, source_contract, check_source, check_input, validate_bindings, is_nil,
}
use reiny.Bindings.Module.Parts.{validate_bindings_parts}

abbrev agrees : EndpointContract → Option SourceContract → Bool
agrees contract known = is_none_or known (λ previous. previous === source_contract contract)

source_by :
    (contract : EndpointContract) (unique : List EndpointAddress) (addresses : Addresses)
    (source : EndpointAddress) (after : List EndpointAddress × Addresses)
    → check_source contract (unique, addresses) source ≡ ok after
    → (validate_address source ≡ ok tt)
      × (contains unique source ≡ false)
      × (agrees contract (get addresses source) ≡ true)
      × (after ≡ (set_insert source unique, insert source (source_contract contract) addresses))
unfolding check_source
source_by contract unique addresses source after done =
    let parts =
      (seq_iff (iff_refl _) (
          seq_iff (require_iff _ _ (not_iff _))
            (seq_iff (require_iff _ _ (iff_refl _)) (ok_iff _ after)))).0
        done in
    (parts.0, parts.1.0, parts.1.1.0, parts.1.1.1)

agreed :
    (contract : EndpointContract) (known : Option SourceContract) (v : SourceContract)
    → agrees contract known ≡ true
    → known ≡ some v
    → v ≡ source_contract contract
agreed contract none v holds e = cc
agreed contract (some previous) v holds e =
    let same = (===_iff previous (source_contract contract)).0 holds in cc

-- The table never forgets or changes what a source's contract is.
kept :
    (contract : EndpointContract) (addresses : Addresses) (source j : EndpointAddress)
    (v : SourceContract)
    → agrees contract (get addresses source) ≡ true
    → get addresses j ≡ some v
    → get (insert source (source_contract contract) addresses) j ≡ some v
kept contract addresses source j v holds known = elim (Bool-cases (same_key source j)) [
  | inl e ↦
      let same = same_key-eq source j e in
      let here : get addresses source ≡ some v = ap (get addresses) same ∙ known in
      get-insert_hit j source (source_contract contract) addresses e
      ∙ ap some (sym (agreed contract (get addresses source) v holds here))
  | inr e ↦ get-insert_other j source (source_contract contract) addresses e ∙ known
]

run_keeps :
    (contract : EndpointContract) (start : List EndpointAddress × Addresses)
    (sources : List EndpointAddress) (after : List EndpointAddress × Addresses)
    (j : EndpointAddress) (v : SourceContract)
    → run_each (check_source contract) start sources ≡ ok after
    → get start.1 j ≡ some v
    → get after.1 j ≡ some v
run_keeps contract start [] after j v done known =
    let same = (ok_iff start after).0 done in ap (λ s. get s.1 j) same ∙ known
run_keeps contract (unique, addresses) (source ∷ rest) after j v done known =
    let first =
      >>=-eq-ok (check_source contract (unique, addresses) source)
        (λ s. run_each (check_source contract) s rest) done in
    let now = source_by contract unique addresses source first.0 first.1 in
    let here = kept contract addresses source j v now.2 known in
    run_keeps contract first.0 rest after j v first.2 (ap (λ s. get s.1 j) now.3 ∙ here)

-- A run over an input's sources: they are valid, distinct, and recorded with the input's contract.
run_by :
    (contract : EndpointContract) (start : List EndpointAddress × Addresses)
    (sources : List EndpointAddress) (after : List EndpointAddress × Addresses)
    → run_each (check_source contract) start sources ≡ ok after
    → All (λ source. validate_address source ≡ ok tt) sources
      × All (λ source. contains start.0 source ≡ false) sources
      × AreDistinct sources
      × All (λ source. get after.1 source ≡ some (source_contract contract)) sources
run_by contract start [] after done = (tt, tt, tt, tt)
run_by contract (unique, addresses) (source ∷ rest) after done =
    let first =
      >>=-eq-ok (check_source contract (unique, addresses) source)
        (λ s. run_each (check_source contract) s rest) done in
    let now = source_by contract unique addresses source first.0 first.1 in
    let later = run_by contract first.0 rest after first.2 in
    let seen = ap (λ s. s.0) now.3 in
    let outside = outside-set_insert source unique rest (rw (sym seen) later.1) in
    let recorded = run_keeps contract first.0 rest after source (source_contract contract) first.2 (
      ap (λ s. get s.1 source) now.3
      ∙ get-insert_hit source source (source_contract contract) addresses (same_key_refl source)) in
    ((now.0, later.0), (now.1, outside.1), (outside.0, later.2), (recorded, later.3))

-- An input passed its own checks, and the table holds its contract for each of its sources.
abbrev pub IsSourced : Addresses → Bytes × InputBinding → Type 0
IsSourced addresses (name, port) =
    (validate_port_name name ≡ ok tt)
    × (validate_contract port.contract true ≡ ok tt)
    × (is_nil port.sources ≡ false)
    × ((port.contract.kind ≡ PortKind.stream) ⊎ (length port.sources ≡ 1))
    × All (λ source. validate_address source ≡ ok tt) port.sources
    × AreDistinct port.sources
    × All (λ source. get addresses source ≡ some (source_contract port.contract)) port.sources

rpc_by :
    (kind : PortKind) (n : ℕ)
    → (not (kind === PortKind.rpc) || n == 1) ≡ true
    → (kind ≡ PortKind.stream) ⊎ (n ≡ 1)
rpc_by PortKind.stream n h = inl refl
rpc_by PortKind.rpc n h = inr ((==_iff n 1).0 h)

input_by :
    (addresses : Addresses) (item : Bytes × InputBinding) (after : Addresses)
    → check_input addresses item ≡ ok after
    → IsSourced after item
      × ((unique : List EndpointAddress) × (run_each
              (check_source item.1.contract)
              ([], addresses)
              item.1.sources
            ≡ ok (unique, after)))
unfolding check_input
input_by addresses (name, port) after done =
    let named = >>-eq-ok (validate_port_name name) _ done in
    let contract = >>-eq-ok (validate_contract port.contract true) _ named.1 in
    let sourced = >>-eq-ok _ _ contract.1 in
    let one = >>-eq-ok _ _ sourced.1 in
    let run =
      >>=-eq-ok (run_each (check_source port.contract) ([], addresses) port.sources) _ one.1 in
    let same = (ok_iff run.0.1 after).0 run.2 in
    let passed = run_by port.contract ([], addresses) port.sources run.0 run.1 in
    let filled = (require_iff _ _ (not_iff (is_nil port.sources))).0 sourced.0 in
    let single = (require_iff _ _ (iff_refl _)).0 one.0 in
    let recorded : All (λ source. get after source ≡ some (source_contract port.contract))
        port.sources =
      rw same passed.3 in
    let ran = run.1 ∙ ap (λ m. ok (run.0.0, m)) (sym same) in
    (
      (
        named.0,
        contract.0,
        filled,
        rpc_by port.contract.kind (length port.sources) single,
        passed.0,
        passed.2,
        recorded,
      ),
      (run.0.0, ran),
    )

inputs_keep :
    (addresses : Addresses) (inputs : Map Bytes InputBinding) (after : Addresses)
    (j : EndpointAddress) (v : SourceContract)
    → run_each check_input addresses inputs ≡ ok after
    → get addresses j ≡ some v
    → get after j ≡ some v
inputs_keep addresses [] after j v done known =
    let same = (ok_iff addresses after).0 done in ap (λ m. get m j) same ∙ known
inputs_keep addresses (item ∷ rest) after j v done known =
    let first = >>=-eq-ok (check_input addresses item) (λ m. run_each check_input m rest) done in
    let now = input_by addresses item first.0 first.1 in
    let here =
      run_keeps item.1.contract ([], addresses) item.1.sources (now.1.0, first.0) j v now.1.1
        known in
    inputs_keep first.0 rest after j v first.2 here

inputs_by :
    (addresses : Addresses) (inputs : Map Bytes InputBinding) (after : Addresses)
    → run_each check_input addresses inputs ≡ ok after
    → All (IsSourced after) inputs
inputs_by addresses [] after done = tt
inputs_by addresses (item ∷ rest) after done =
    let first = >>=-eq-ok (check_input addresses item) (λ m. run_each check_input m rest) done in
    let now = (input_by addresses item first.0 first.1).0 in
    let later =
      All-map _ _ item.1.sources
        (λ source. inputs_keep first.0 rest after source (source_contract item.1.contract) first.2)
        now.6 in
    ((now.0, now.1, now.2, now.3, now.4, now.5, later), inputs_by first.0 rest after first.2)

-- In accepted bindings there is one contract (type, response, operation and semantics) for every
-- source endpoint, which every input that names the source has; each input has an accepted name and
-- contract and at least one source, its sources are valid and pairwise different, and an RPC input
-- has exactly one.
pub validate_bindings-IsSourced :
    (b : ModuleBindings)
    → validate_bindings b ≡ ok tt
    → (addresses : Addresses) × All (IsSourced addresses) b.inputs
validate_bindings-IsSourced b done =
    let inputs = (validate_bindings_parts b done).1 in
    (inputs.0, inputs_by [] b.inputs inputs.0 inputs.1)
