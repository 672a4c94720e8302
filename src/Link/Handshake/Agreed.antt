-- ===== src/Link/Handshake/Agreed.antt =====
-- What `validate_hello` of crates/reiny-link/src/link.rs promises of a Hello that it accepts.
use reiny.Prelude.{
  seq_iff, and_iff, ℕ, zero, suc, ◌≤◌, ◌≡◌, ◌↔◌, refl, sym, ap, ◌∙◌, arith, Bool, true, false, ◌&&◌,
  Option, none, some, Result, ok, err, refuse, map_err, >>=-eq-ok, >>-eq-ok, List, [], ◌∷◌, Bytes,
  All, length, replicate, any, filled, iff_refl, any-false_iff, ◌==◌, ==_iff, bytes_eq_iff, ltb,
  refuse_iff,
}
use reiny.Wire.Types.{WireError}
use reiny.Wire.Table.{EndpointRef, endpoint_eq, HelloEntry}
use reiny.Wire.HelloParser.{
  Hello, hello_parse, hello_entries, has_flag, entry_addresses, address_hash,
}
use reiny.Wire.HelloParser.Flags.{and_says, or_says, endpoint_eq_iff, hello_type_eq_iff}
use reiny.Wire.HelloParser.Checked.{must_be, hash_pair}
use reiny.Link.State.{
  Env, Link, LocalType, RemoteType, PeerContract, Error, invalid_ports, too_large, schema_mismatch,
  id_buf, id_max,
}
use reiny.Link.Lookup.{source_hash}
use reiny.Link.Emit.{map_response}
use reiny.Link.Handshake.{
  xor, wired, contract_differs, source_collides, check_locals, local_addresses, clash,
  address_clashes, remote_entry, build_remote, changed, validate_hello,
}

-- Name, fingerprint, response and direction (a stream or RPC).
abbrev pub IsSameWire : LocalType → HelloEntry → Type 0
IsSameWire t e =
    (t.name ≡ e.name)
    × (t.schema ≡ e.schema)
    × (map_response t.port.port.response ≡ e.response)
    × (has_flag t.flags 36 ≡ has_flag e.flags 36)

-- An own type that is wired to the entry agrees with it, and no source of it has the entry's hash
-- unless it is the entry's address.
abbrev pub IsFit : Bytes → Bytes → HelloEntry → LocalType → Type 0
IsFit own_id peer_id e t =
    (wired own_id peer_id t e ≡ true → IsSameWire t e)
    × All (λ s. source_hash s ≡ e.hash → (s.namespace ≡ peer_id) × (s.port ≡ e.port))
        t.port.port.sources

-- And no address of ours has the hash of another address of the entry's.
abbrev pub IsAgreed : Bytes → Bytes → List LocalType → HelloEntry → Type 0
IsAgreed own_id peer_id locals e =
    All (IsFit own_id peer_id e) locals
    × All
        (λ a.
          All (λ t. All (λ o. address_hash o ≡ address_hash a → o ≡ a) (local_addresses own_id t))
            locals)
        (entry_addresses peer_id e)

xor_iff : (a b : Bool) → (xor a b ≡ false) ↔ (a ≡ b)
xor_iff a b = ground arith

wire_says : (t : LocalType) (e : HelloEntry) → (contract_differs t e ≡ false) ↔ IsSameWire t e
unfolding contract_differs
wire_says t e =
    let parts =
      or_says
        (or_says
          (or_says (must_be (bytes_eq_iff t.name e.name)) (must_be (==_iff t.schema e.schema)))
          (must_be (hello_type_eq_iff (map_response t.port.port.response) e.response)))
        (xor_iff (has_flag t.flags 36) (has_flag e.flags 36)) in
    (
      λ h. let q = parts.0 h in (q.0.0.0, q.0.0.1, q.0.1, q.1),
      λ q. parts.1 (((q.0, q.1), q.2), q.3),
    )

source_says :
    (peer_id : Bytes) (e : HelloEntry) (t : LocalType)
    → (source_collides peer_id t e ≡ false)
      ↔ All
          (λ s. source_hash s ≡ e.hash → (s.namespace ≡ peer_id) × (s.port ≡ e.port))
          t.port.port.sources
unfolding source_collides
source_says peer_id e t = any-false_iff _ t.port.port.sources (λ s.
    and_says (==_iff (source_hash s) e.hash)
      (must_be (and_iff (bytes_eq_iff s.namespace peer_id) (bytes_eq_iff s.port e.port))))

locals_agree :
    (own_id peer_id : Bytes) (e : HelloEntry) (locals : List LocalType)
    → (check_locals own_id peer_id e locals ≡ ok tt) ↔ All (IsFit own_id peer_id e) locals
unfolding check_locals
locals_agree own_id peer_id e [] = (λ _. tt, λ _. refl)
locals_agree own_id peer_id e (t ∷ rest) =
    let parts =
      seq_iff
        (refuse_iff _ schema_mismatch
          (and_says (iff_refl (wired own_id peer_id t e ≡ true)) (wire_says t e)))
        (seq_iff (refuse_iff _ invalid_ports (source_says peer_id e t))
          (locals_agree own_id peer_id e rest)) in
    (λ h. let q = parts.0 h in ((q.0, q.1.0), q.1.1), λ q. parts.1 (q.0.0, (q.0.1, q.1)))

addresses_agree :
    (own_id : Bytes) (locals : List LocalType) (addresses : List EndpointRef)
    → (any (address_clashes own_id locals) addresses ≡ false)
      ↔ All
          (λ a.
            All
              (λ t. All (λ o. address_hash o ≡ address_hash a → o ≡ a) (local_addresses own_id t))
              locals)
          addresses
unfolding address_clashes clash
addresses_agree own_id locals addresses =
    any-false_iff (address_clashes own_id locals) addresses (λ a. any-false_iff _ locals (λ t.
      any-false_iff _ (local_addresses own_id t) (λ o.
        hash_pair (endpoint_eq o a) (address_hash o == address_hash a) (endpoint_eq_iff o a)
          (==_iff (address_hash o) (address_hash a)))))

-- The rows of the table: the entries, and free ones.
abbrev pub rows_of : ℕ → List HelloEntry → List (Option RemoteType)
rows_of free [] = replicate free none
rows_of zero (e ∷ rest) = []
rows_of (suc free) (e ∷ rest) = some (remote_entry e) ∷ rows_of free rest

module _ (own_id peer_id : Bytes) (locals : List LocalType) where
  no_clash :
      (e : HelloEntry)
      → (◌≡◌ {A = Result Error (Unit {0})}
          (refuse (any (address_clashes own_id locals) (entry_addresses peer_id e)) invalid_ports)
          (ok tt))
        ↔ All
            (λ a.
              All
                (λ t. All (λ o. address_hash o ≡ address_hash a → o ≡ a) (local_addresses own_id t))
                locals)
            (entry_addresses peer_id e)
  no_clash e =
      refuse_iff _ invalid_ports (addresses_agree own_id locals (entry_addresses peer_id e))

  rows_agree :
      (free : ℕ) (es : List HelloEntry) (rows : List (Option RemoteType))
      → build_remote own_id peer_id locals free es ≡ ok rows
      → (rows ≡ rows_of free es) × (length es ≤ free) × All (IsAgreed own_id peer_id locals) es
  unfolding build_remote
  rows_agree free [] rows done = (cc, omega arith, tt)
  rows_agree zero (e ∷ rest) rows done = cc
  rows_agree (suc free) (e ∷ rest) rows done =
      let first = >>-eq-ok (check_locals own_id peer_id e locals) _ done in
      let second =
        >>-eq-ok
          (refuse (any (address_clashes own_id locals) (entry_addresses peer_id e)) invalid_ports) _
          first.1 in
      let third = >>=-eq-ok (build_remote own_id peer_id locals free rest) _ second.1 in
      let later = rows_agree free rest third.0 third.1 in
      let whole : rows ≡ some (remote_entry e) ∷ third.0 = let made = third.2 in cc in
      (
        whole ∙ ap (λ r. some (remote_entry e) ∷ r) later.0,
        omega (arith, later.1),
        (((locals_agree own_id peer_id e locals).0 first.0, (no_clash e).0 second.0), later.2),
      )

  rows_made :
      (free : ℕ) (es : List HelloEntry)
      → length es ≤ free
      → All (IsAgreed own_id peer_id locals) es
      → build_remote own_id peer_id locals free es ≡ ok (rows_of free es)
  unfolding build_remote
  rows_made free [] room agreed = refl
  rows_made zero (e ∷ rest) room agreed = absurd (omega (arith, room))
  rows_made (suc free) (e ∷ rest) room agreed =
      let fit = (locals_agree own_id peer_id e locals).1 agreed.0.0 in
      let apart = (no_clash e).1 agreed.0.1 in
      rw (fit, apart, rows_made free rest (omega (arith, room)) agreed.1) refl

-- The contract is the Hello's, which fits the table and agrees with what the link declares.
abbrev pub IsContract : Env → Bytes → Link → PeerContract → Type 0
IsContract env payload l contract =
    (hello : Hello) × (hello_parse payload ≡ ok hello)
    × (contract ≡ record {
      peer = hello.id;
      remote = rows_of env.n (hello_entries hello);
      ack = hello.ack;
      bridge = hello.bridge;
    })
    × (length (hello_entries hello) ≤ env.n)
    × (length hello.id ≤ id_max)
    × (length payload ≤ env.frame)
    × All (IsAgreed l.id hello.id (filled l.local)) (hello_entries hello)
    × ((l.connected && changed l payload) ≡ false)

parsed_by :
    (parsed : Result WireError Hello) (hello : Hello)
    → map_err parsed invalid_ports ≡ ok hello
    → parsed ≡ ok hello
parsed_by (ok found) hello h = let same : found ≡ hello = cc in ap ok same
parsed_by (err e) hello h = cc

id_by : (id peer : Bytes) → id_buf id ≡ ok peer → (peer ≡ id) × (length id ≤ id_max)
unfolding id_buf
id_by id peer h = ground arith

within : (n limit : ℕ) → (ltb limit n ≡ false) ↔ (n ≤ limit)
within n limit = ground arith

pub validate_hello-IsContract :
    (env : Env) (payload : Bytes) (l : Link) (contract : PeerContract)
    → validate_hello env payload l ≡ ok contract
    → IsContract env payload l contract
unfolding validate_hello
validate_hello-IsContract env payload l contract done =
    let first = >>=-eq-ok (map_err (hello_parse payload) invalid_ports) _ done in
    let hello = first.0 in
    let second = >>=-eq-ok (id_buf hello.id) _ first.2 in
    let third = >>-eq-ok (refuse (ltb env.frame (length payload)) too_large) _ second.2 in
    let fourth = >>-eq-ok (refuse (l.connected && changed l payload) invalid_ports) _ third.1 in
    let fifth =
      >>=-eq-ok (build_remote l.id hello.id (filled l.local) env.n (hello_entries hello)) _
        fourth.1 in
    let rows =
      rows_agree l.id hello.id (filled l.local) env.n (hello_entries hello) fifth.0 fifth.1 in
    let named = id_by hello.id second.0 second.1 in
    (
      hello,
      parsed_by (hello_parse payload) hello first.1,
      whole contract hello second.0 fifth.0 fifth.2 named.0 rows.0,
      rows.1,
      named.1,
      (refuse_iff _ too_large (within (length payload) env.frame)).0 third.0,
      rows.2,
      (refuse_iff _ invalid_ports (iff_refl _)).0 fourth.0,
    )
  where
    whole :
        (contract : PeerContract) (hello : Hello) (peer : Bytes) (rows : List (Option RemoteType))
        → ◌≡◌ {A = Result Error PeerContract}
            (ok (record { peer = peer; remote = rows; ack = hello.ack; bridge = hello.bridge }))
            (ok contract)
        → peer ≡ hello.id
        → rows ≡ rows_of env.n (hello_entries hello)
        → contract ≡ record {
          peer = hello.id;
          remote = rows_of env.n (hello_entries hello);
          ack = hello.ack;
          bridge = hello.bridge;
        }
    whole contract hello peer rows made p q = cc

pub IsContract-validate_hello :
    (env : Env) (payload : Bytes) (l : Link) (contract : PeerContract)
    → IsContract env payload l contract
    → validate_hello env payload l ≡ ok contract
unfolding validate_hello id_buf
IsContract-validate_hello env payload l contract is =
    let hello = is.0 in
    let short : ltb id_max (length hello.id) ≡ false = (within (length hello.id) id_max).1 is.4 in
    let fits = (within (length payload) env.frame).1 is.5 in
    let rows = rows_made l.id hello.id (filled l.local) env.n (hello_entries hello) is.3 is.6 in
    rw (is.1, short, fits, is.7, rows) (ap ok (sym is.2))
