-- ===== src/Link/Lookup.antt =====
-- What crates/reiny-link/src/link.rs looks up in its tables: our own types, the peer's types and
-- the peer's Hello.
use reiny.Prelude.{
  ℕ, Bool, ◌&&◌, ◌||◌, Option, none, some, List, take, any, find?, filled, is_some, is_some_and,
  to_option, ◌==◌,
}
use reiny.Core.{StaticEndpointAddress}
use reiny.Wire.Types.{flag_sub, flag_serve}
use reiny.Wire.Hash.{endpoint_hash}
use reiny.Wire.Table.{HelloEntry}
use reiny.Wire.EntryReader.{sources_iter}
use reiny.Wire.HelloParser.{Hello, hello_parse, hello_entries, has_flag, is_source_side}
use reiny.Link.State.{Link, LocalType, RemoteType}

-- `wire::endpoint_hash(s.namespace, s.port)`
abbrev pub source_hash : StaticEndpointAddress → ℕ
source_hash s = endpoint_hash s.namespace s.port

unfoldable pub local_type : Link → ℕ → Option LocalType
local_type l hash = find? (λ t. t.hash == hash && is_source_side t.flags) (filled l.local)

unfoldable pub local_source : Link → ℕ → ℕ → Option LocalType
local_source l hash flag =
    find? (λ t. has_flag t.flags flag && any (λ s. source_hash s == hash) t.port.port.sources)
      (filled l.local)

unfoldable pub remote_type : Link → ℕ → Option RemoteType
remote_type l hash = find? (λ t. t.hash == hash && is_source_side t.flags) (filled l.remote)

unfoldable pub peer_table : Link → Option Hello
peer_table l = to_option (hello_parse (take l.peer_hello_len l.peer_hello))

abbrev selects : ℕ → ℕ → HelloEntry → Bool
selects hash flag e =
    has_flag e.flags flag
    && any (λ s. endpoint_hash s.namespace s.port == hash) (sources_iter e.sources)

abbrev find_entry : (HelloEntry → Bool) → Option Hello → Option HelloEntry
find_entry p none = none
find_entry p (some hello) = find? p (hello_entries hello)

unfoldable pub remote_source : Link → ℕ → ℕ → Option HelloEntry
unfolding peer_table
remote_source l hash flag = find_entry (selects hash flag) (peer_table l)

unfoldable pub peer_subscribes_hash : Link → ℕ → Bool
peer_subscribes_hash l hash =
    l.connected && (l.peer_bridge || is_some (remote_source l hash flag_sub))

unfoldable pub peer_serves_hash : Link → ℕ → Bool
peer_serves_hash l hash =
    l.connected
    && (l.peer_bridge || is_some_and (remote_type l hash) (λ t. has_flag t.flags flag_serve))

-- The methods that read one field or two.
pub peer_is_bridge : Link → Bool
peer_is_bridge l = l.connected && l.peer_bridge

pub peer_types : Link → List RemoteType
peer_types l = filled l.remote
