-- ===== src/Link/Read.antt =====
-- The methods of crates/reiny-link/src/link.rs that read a frame through its handle.
pub mod Stale
use reiny.Prelude.{
  ℕ, ◌+◌, Bool, true, false, not, ◌&&◌, ◌||◌, Option, none, some, ◌==◌, if◌then◌else◌, Bytes, [],
  slice, take, drop, length, ltb, find?, bytes_eq, from_le_bytes,
}
use reiny.Core.{MessageType, Service, StaticEndpointAddress}
use reiny.Wire.Types.{Kind, header_len, flag_pub, flag_sub, flag_calls}
use reiny.Wire.Hash.{endpoint_hash}
use reiny.Wire.Text.{from_utf8}
use reiny.Wire.Table.{EndpointRef, HelloEntry}
use reiny.Wire.EntryReader.{sources_iter}
use reiny.Wire.HelloParser.{hello_entries, has_flag, is_source_side}
use reiny.Link.State.{Link, LocalType, Frame}
use reiny.Link.Lookup.{local_type, local_source, remote_source, peer_table, source_hash}

abbrev pub is_fresh : Link → Frame → Bool
is_fresh l frame = frame.generation == l.rx_generation

unfoldable pub payload : Link → Frame → Bytes
payload l frame = if is_fresh l frame then slice l.rx header_len (header_len + frame.len) else []

abbrev is_kind : Kind → Kind → Bool
is_kind Kind.hello Kind.hello = true
is_kind Kind.data_frame Kind.data_frame = true
is_kind Kind.request Kind.request = true
is_kind Kind.reply Kind.reply = true
is_kind Kind.error_frame Kind.error_frame = true
is_kind Kind.ping Kind.ping = true
is_kind _ _ = false

-- The `?` of a method that returns an `Option`.
infixl 5 ◌>>=◌
abbrev ◌>>=◌ : {A B : Type 0} → Option A → (A → Option B) → Option B
none >>= f = none
some a >>= f = f a

abbrev static_address : StaticEndpointAddress → EndpointRef
static_address s = record { namespace = s.namespace; port = s.port }

-- The address of the output behind a Data frame.
data_address : Link → ℕ → Option EndpointRef
data_address l hash =
    let from_bridge : Option EndpointRef = local_source l hash flag_sub >>= λ local.
    find? (λ s. source_hash s == hash) local.port.port.sources >>= λ source.
    some (static_address source) in
    let from_peer : Option EndpointRef = peer_table l >>= λ hello.
    find? (λ e. e.hash == hash && has_flag e.flags flag_pub) (hello_entries hello) >>= λ entry.
    some (record { namespace = hello.id; port = entry.port }) in
    if l.peer_bridge then from_bridge else from_peer

-- The address of the server behind any other frame.
server_address : Link → ℕ → Option EndpointRef
server_address l hash = elim (local_type l hash) [
  | some local ↦ some (record { namespace = l.id; port = local.port.port.name })
  | none ↦
      (remote_source l hash flag_calls >>= λ entry.
      find? (λ source. endpoint_hash source.namespace source.port == hash)
        (sources_iter entry.sources))
]

unfoldable pub frame_address : Link → Frame → Option EndpointRef
unfolding data_address server_address
frame_address l frame =
    if is_kind frame.kind Kind.data_frame
    then data_address l frame.hash
    else server_address l frame.hash

-- Our own side of the contract, where the frame has one.
local_contract : Link → Kind → ℕ → Option LocalType
local_contract l Kind.data_frame hash = if l.peer_bridge then local_source l hash flag_sub else none
local_contract l Kind.request hash = local_type l hash
local_contract l Kind.reply hash = local_source l hash flag_calls
local_contract l _ hash = none

-- The peer's side.
remote_contract : Link → Kind → ℕ → Option HelloEntry
remote_contract l kind hash = peer_table l >>= λ hello.
    if is_kind kind Kind.request
    then remote_source l hash flag_calls
    else find? (λ e. e.hash == hash && is_source_side e.flags) (hello_entries hello)

unfoldable pub frame_contract : Link → Frame → Option (Bytes × ℕ)
unfolding local_contract remote_contract
frame_contract l frame =
    if not (is_fresh l frame) then none else elim (local_contract l frame.kind frame.hash) [
      | some local ↦ some (local.name, local.schema)
      | none ↦
          (remote_contract l frame.kind frame.hash >>= λ entry. some (entry.name, entry.schema))
    ]

-- `self.frame_contract(frame) == Some((T::TYPE_NAME, T::SCHEMA_FINGERPRINT))`
abbrev is_contract : MessageType → Option (Bytes × ℕ) → Bool
is_contract t none = false
is_contract t (some contract) =
    bytes_eq contract.0 t.type_name && contract.1 == t.schema_fingerprint

-- The decoders of `prost` are arguments.
module _ {T : Type 0} (prost_decode : Bytes → Option T) where
  pub decode : MessageType → Link → Frame → Option T
  unfolding payload frame_contract
  decode t l frame =
      if not (is_kind frame.kind Kind.data_frame || is_kind frame.kind Kind.request)
        || not (is_contract t (frame_contract l frame))
      then none
      else prost_decode (payload l frame)

  -- Eight bytes of fingerprint stand in front of a reply.
  decode_response : ℕ → Bytes → Option T
  decode_response schema bytes =
      if ltb (length bytes) 8
      then none
      else if not (from_le_bytes (take 8 bytes) == schema)
      then none
      else prost_decode (drop 8 bytes)

  pub decode_reply : Service → Link → Frame → Option T
  unfolding payload frame_contract decode_response
  decode_reply s l frame =
      if not (is_kind frame.kind Kind.reply) || not (is_contract s.request (frame_contract l frame))
      then none
      else decode_response s.response.schema_fingerprint (payload l frame)

-- `unwrap_or("")`
abbrev or_empty : Option Bytes → Bytes
or_empty none = []
or_empty (some s) = s

pub error_message : Link → Frame → Bytes
unfolding payload
error_message l frame = or_empty (from_utf8 (payload l frame))
