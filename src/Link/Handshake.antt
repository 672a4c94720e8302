-- ===== src/Link/Handshake.antt =====
-- `validate_hello` and `on_hello` of crates/reiny-link/src/link.rs.
pub mod Outcome
pub mod Agreed
use reiny.Prelude.{
  ℕ, zero, suc, ◌+◌, Bool, true, false, not, ◌&&◌, ◌||◌, Option, none, some, Result, ok, err, ◌>>=◌,
  ◌>>◌, refuse, map_err, List, [], ◌∷◌, Bytes, length, drop, replicate, splice, slice, any, map,
  bit_and, ltb, ◌==◌, if◌then◌else◌, bytes_eq, filled,
}
use reiny.Core.{StaticEndpointAddress}
use reiny.Wire.Types.{header_len}
use reiny.Wire.Frame.{byte_at}
use reiny.Wire.Table.{EndpointRef, endpoint_eq, hello_type_eq, HelloEntry}
use reiny.Wire.EntryReader.{sources_iter}
use reiny.Wire.HelloParser.{
  hello_parse, hello_entries, has_flag, is_source_side, entry_addresses, address_hash,
}
use reiny.Link.State.{
  Env, Link, LocalType, RemoteType, PeerContract, Frame, Event, connected_event, disconnected_event,
  Error, invalid_ports, too_large, table_full, schema_mismatch, id_buf, bump32,
}
use reiny.Link.Lookup.{source_hash}
use reiny.Link.Emit.{map_response, queue_hello}

abbrev pub xor : Bool → Bool → Bool
xor true b = not b
xor false b = b

-- `s.namespace == namespace && s.port == port`
abbrev is_address : Bytes → Bytes → StaticEndpointAddress → Bool
is_address namespace port s = bytes_eq s.namespace namespace && bytes_eq s.port port

-- Whether one of our types and an entry of the peer are the two ends of one wire.
pub wired : Bytes → Bytes → LocalType → HelloEntry → Bool
wired own_id peer_id t e =
    (any (is_address peer_id e.port) t.port.port.sources && is_source_side e.flags)
    || (any (λ s. bytes_eq s.namespace own_id && bytes_eq s.port t.port.port.name)
          (sources_iter e.sources)
        && is_source_side t.flags)

-- Whether the two ends disagree on name, fingerprint, response or direction.
pub contract_differs : LocalType → HelloEntry → Bool
contract_differs t e =
    not (bytes_eq t.name e.name)
    || not (t.schema == e.schema)
    || not (hello_type_eq (map_response t.port.port.response) e.response)
    || xor (has_flag t.flags 36) (has_flag e.flags 36)

-- One of our sources has the hash of the entry and is another address.
pub source_collides : Bytes → LocalType → HelloEntry → Bool
source_collides peer_id t e =
    any (λ s. source_hash s == e.hash && not (is_address peer_id e.port s)) t.port.port.sources

-- The first loop over our own types.
pub check_locals : Bytes → Bytes → HelloEntry → List LocalType → Result Error (Unit {0})
unfolding wired contract_differs source_collides
check_locals own_id peer_id e [] = ok tt
check_locals own_id peer_id e (t ∷ rest) = do
  refuse (wired own_id peer_id t e && contract_differs t e) schema_mismatch
  refuse (source_collides peer_id t e) invalid_ports
  check_locals own_id peer_id e rest

-- `own` with its sources.
abbrev pub local_addresses : Bytes → LocalType → List EndpointRef
local_addresses own_id t =
    record { namespace = own_id; port = t.port.port.name }
    ∷ map (λ s. record { namespace = s.namespace; port = s.port }) t.port.port.sources

-- Two addresses that differ and share a hash.
pub clash : EndpointRef → EndpointRef → Bool
clash address other = not (endpoint_eq other address) && address_hash other == address_hash address

pub address_clashes : Bytes → List LocalType → EndpointRef → Bool
unfolding clash
address_clashes own_id locals address =
    any (λ t. any (clash address) (local_addresses own_id t)) locals

abbrev pub remote_entry : HelloEntry → RemoteType
remote_entry e = record { hash = e.hash; flags = e.flags; schema = e.schema; mismatch = false }

-- The loop over the peer's entries, with the rows of the table that are left.
pub build_remote :
    Bytes → Bytes → List LocalType → ℕ → List HelloEntry → Result Error (List (Option RemoteType))
unfolding check_locals address_clashes
build_remote own_id peer_id locals free [] = ok (replicate free none)
build_remote own_id peer_id locals zero (e ∷ rest) = err table_full
build_remote own_id peer_id locals (suc free) (e ∷ rest) = do
  check_locals own_id peer_id e locals
  refuse (any (address_clashes own_id locals) (entry_addresses peer_id e)) invalid_ports
  rows ← build_remote own_id peer_id locals free rest
  ok (some (remote_entry e) ∷ rows)

-- `!wire::HELLO_ACK` on a byte.
abbrev not_ack : ℕ
not_ack = 254

-- While connected, another Hello may differ from the first in its `ack` bit only.
pub changed : Link → Bytes → Bool
changed l payload =
    not (l.peer_hello_len == length payload)
    || not (bit_and (byte_at l.peer_hello 0) not_ack == bit_and (byte_at payload 0) not_ack)
    || not (bytes_eq (slice l.peer_hello 1 l.peer_hello_len) (drop 1 payload))

module _ (env : Env) where
  unfoldable pub validate_hello : Bytes → Link → Result Error PeerContract
  unfolding build_remote changed
  validate_hello payload l = do
    hello ← map_err (hello_parse payload) invalid_ports
    peer ← id_buf hello.id
    refuse (ltb env.frame (length payload)) too_large
    refuse (l.connected && changed l payload) invalid_ports
    rows ← build_remote l.id hello.id (filled l.local) env.n (hello_entries hello)
    ok (record { peer = peer; remote = rows; ack = hello.ack; bridge = hello.bridge })

  -- What an end of the connection clears.
  abbrev pub forget_peer : Link → Link
  forget_peer l = record l {
    connected = false;
    peer = none;
    peer_bridge = false;
    remote = replicate env.n none;
    peer_hello_len = 0;
    pending = replicate env.n none;
  }

  abbrev pub count_bad_frame : Link → Link
  count_bad_frame l = record l {
    stats = record (l.stats) { bad_frames = bump32 l.stats.bad_frames };
  }

  -- `matches!(result, Err(Error::TableFull))`
  abbrev pub count_overflow : Error → Link → Link
  count_overflow table_full l = record l {
    stats = record (l.stats) { remote_overflow = bump32 l.stats.remote_overflow };
  }
  count_overflow _ l = l

  abbrev pub reject_hello : Error → Link → Option Event × Link
  reject_hello e l = (
    (if l.connected then some disconnected_event else none),
    forget_peer (count_overflow e (count_bad_frame l)),
  )

  abbrev pub install : PeerContract → Bytes → Link → Link
  install contract payload l = record l {
    peer_hello = splice l.peer_hello 0 payload;
    peer_hello_len = length payload;
    peer = some contract.peer;
    peer_bridge = contract.bridge;
    remote = contract.remote;
    connected = true;
  }

  abbrev pub accept_hello : PeerContract → Bytes → Frame → Link → Option Event × Link
  accept_hello contract payload frame l =
      let installed = install contract payload l in
      let answered = (queue_hello env true installed).1 in
      (
        (if not contract.ack || not l.connected then some (connected_event frame) else none),
        (if contract.ack then installed else answered),
      )

  abbrev pub answer_hello : Result Error PeerContract → Bytes → Frame → Link → Option Event × Link
  answer_hello (err e) payload frame l = reject_hello e l
  answer_hello (ok contract) payload frame l = accept_hello contract payload frame l

  unfoldable pub on_hello : Frame → Link → Option Event × Link
  unfolding validate_hello
  on_hello frame l =
      let payload = slice l.rx header_len (header_len + frame.len) in
      answer_hello (validate_hello payload l) payload frame l
