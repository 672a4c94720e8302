-- ===== src/Wire/HelloParser.antt =====
-- `hello_parse`, `Hello::entries` and `validate_address_hashes` of crates/reiny-link/src/wire.rs.
pub mod Laws
pub mod Rules
pub mod Flags
pub mod Checked
pub mod RoundTrip
pub mod Accepted
use reiny.Prelude.{
  ℕ, zero, suc, ◌+◌, Bool, true, false, not, ◌&&◌, ◌||◌, Option, none, some, Result, ok, err, ◌>>=◌,
  ◌>>◌, refuse, ok_or, List, [], ◌∷◌, ◌++◌, Bytes, length, take, drop, any, any_after, flat_map,
  bit_and, ◌==◌, if◌then◌else◌, bytes_eq, is_some, is_some_and, to_le_bytes,
}
use reiny.Core.{schema_fingerprint_version}
use reiny.Wire.Types.{
  WireError, malformed, hello_ack, hello_bridge, flag_pub, flag_sub, flag_serve, flag_latched,
  flag_calls,
}
use reiny.Wire.Hash.{endpoint_hash}
use reiny.Wire.Text.{valid_port, valid_namespace, valid_type}
use reiny.Wire.Table.{EndpointRef, endpoint_eq, HelloType, hello_type_eq, HelloEntry}
use reiny.Wire.Reader.{Reader, read_u8, read_bytes, read_str}
use reiny.Wire.EntryReader.{read_entry, sources_iter}

pub record Hello : Type 0 where
  pub ack : Bool
  pub bridge : Bool
  pub id : Bytes
  pub count : ℕ
  pub entries : Bytes

-- `HelloEntries::next`, until it returns `None`.
read_entries : ℕ → Reader → List HelloEntry
read_entries zero r = []
read_entries (suc remaining) r = elim (read_entry r) [
  | none ↦ []
  | some (entry, r') ↦ entry ∷ read_entries remaining r'
]

-- `Hello::entries`
unfoldable pub hello_entries : Hello → List HelloEntry
unfolding read_entries
hello_entries hello = read_entries hello.count (record { buf = hello.entries; pos = 0 })

-- `!flags::LATCHED` on a byte.
abbrev not_latched : ℕ
not_latched = 247

-- `entry.flags & !flags::LATCHED`
abbrev pub direction : HelloEntry → ℕ
direction entry = bit_and entry.flags not_latched

-- `flags & flag != 0`
abbrev pub has_flag : ℕ → ℕ → Bool
has_flag flags flag = not (bit_and flags flag == 0)

abbrev pub is_direction : ℕ → Bool
is_direction d = d == flag_pub || d == flag_sub || d == flag_serve || d == flag_calls

abbrev pub is_rpc : ℕ → Bool
is_rpc d = d == flag_serve || d == flag_calls

abbrev pub xor : Bool → Bool → Bool
xor true b = not b
xor false b = b

pub contract_refused : Bytes → HelloEntry → Bool
contract_refused id entry =
    not (is_direction (direction entry))
    || (has_flag entry.flags flag_latched && not (direction entry == flag_pub))
    || not (valid_port entry.port)
    || not (valid_type entry.name)
    || not (entry.hash == endpoint_hash id entry.port)
    || xor (is_rpc (direction entry)) (is_some entry.response)
    || is_some_and entry.response (λ response. not (valid_type response.name))

pub source_count_refused : HelloEntry → Bool
source_count_refused entry =
    let d = direction entry in
    let source_count = length (sources_iter entry.sources) in
    ((d == flag_pub || d == flag_serve) && not (source_count == 0))
    || (d == flag_sub && source_count == 0)
    || (d == flag_calls && not (source_count == 1))

-- One round of the loop over the sources; `before` is what `take(i)` gives.
pub source_refused : List EndpointRef → EndpointRef → Bool
source_refused before source =
    not (valid_namespace source.namespace)
    || not (valid_port source.port)
    || any (λ previous. endpoint_eq previous source) before

-- Outputs and servers share one set of port names, inputs and callers the other.
abbrev pub is_source_side : ℕ → Bool
is_source_side flags = has_flag flags 5

pub previous_refused : HelloEntry → HelloEntry → Bool
previous_refused entry previous =
    let shared_source =
      any (λ source. any (λ other. endpoint_eq other source) (sources_iter entry.sources))
        (sources_iter previous.sources) in
    let same_slot = not (xor (is_source_side previous.flags) (is_source_side entry.flags)) in
    (shared_source
      && (not (bytes_eq previous.name entry.name)
          || not (previous.schema == entry.schema)
          || not (hello_type_eq previous.response entry.response)
          || xor (has_flag previous.flags flag_calls) (has_flag entry.flags flag_calls)))
    || (bytes_eq previous.port entry.port && same_slot)
    || (previous.hash == entry.hash && not (bytes_eq previous.port entry.port))

-- The body of the loop over the entries, past the read; `before` is what the loop has passed.
pub entry_refused : Bytes → List HelloEntry → HelloEntry → Bool
unfolding contract_refused source_count_refused source_refused previous_refused
entry_refused id before entry =
    contract_refused id entry
    || source_count_refused entry
    || any_after source_refused [] (sources_iter entry.sources)
    || any (previous_refused entry) before

-- `for index in 0..count`, with the rounds that are left.
pub check_entries : Hello → ℕ → ℕ → Reader → Result WireError Reader
unfolding entry_refused
check_entries hello zero index r = ok r
check_entries hello (suc rounds) index r = do
  (entry, r') ← ok_or (read_entry r) malformed
  refuse (entry_refused hello.id (take index (hello_entries hello)) entry) malformed
  check_entries hello rounds (index + 1) r'

-- `addresses()`
abbrev pub entry_addresses : Bytes → HelloEntry → List EndpointRef
entry_addresses id e = record { namespace = id; port = e.port } ∷ sources_iter e.sources

unfoldable pub hello_addresses : Hello → List EndpointRef
hello_addresses hello = flat_map (entry_addresses hello.id) (hello_entries hello)

unfoldable pub address_hash : EndpointRef → ℕ
address_hash a = endpoint_hash a.namespace a.port

pub hash_refused : List EndpointRef → EndpointRef → Bool
unfolding address_hash
hash_refused before address =
    any
      (λ previous.
        not (endpoint_eq previous address) && address_hash previous == address_hash address)
      before

pub validate_address_hashes : Hello → Result WireError (Unit {0})
unfolding hello_addresses hash_refused
validate_address_hashes hello = refuse (any_after hash_refused [] (hello_addresses hello)) malformed

-- The Hello as far as the head of the payload says, and the reader behind its count.
pub parse_head : Bytes → Result WireError (Hello × Reader)
parse_head payload = do
  (flags, r1) ← ok_or (read_u8 (record { buf = payload; pos = 0 })) malformed
  refuse (not (bit_and flags 252 == 0)) malformed
  (version, r2) ← ok_or (read_bytes 2 r1) malformed
  refuse (not (bytes_eq version (to_le_bytes 2 schema_fingerprint_version))) malformed
  (id, r3) ← ok_or (read_str r2) malformed
  refuse (not (valid_namespace id)) malformed
  (count, r4) ← ok_or (read_u8 r3) malformed
  ok (
    record {
      ack = has_flag flags hello_ack;
      bridge = has_flag flags hello_bridge;
      id = id;
      count = count;
      entries = drop r4.pos payload;
    },
    r4,
  )

unfoldable pub hello_parse : Bytes → Result WireError Hello
unfolding parse_head check_entries validate_address_hashes
hello_parse payload = do
  (hello, r) ← parse_head payload
  refuse (hello.bridge && not (hello.count == 0)) malformed
  r' ← check_entries hello hello.count 0 r
  refuse (not (r'.pos == length payload)) malformed
  validate_address_hashes hello
  ok hello
