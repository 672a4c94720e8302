-- ===== src/Link/Declare.antt =====
-- The declarations of crates/reiny-link/src/link.rs, made before any I/O.
use reiny.Prelude.{
  ℕ, ◌+◌, Bool, true, false, not, ◌&&◌, ◌||◌, Option, none, some, Result, ok, err, List, [], ◌∷◌,
  Bytes, any, ◌==◌, if◌then◌else◌, bytes_eq, filled, fill_free, is_full, bit_or,
}
use reiny.Core.{
  PortDirection, output, input, rpc_server, rpc_client, direction_eq, PortType, StaticPort,
  MessageType, Service,
}
use reiny.Wire.Types.{flag_pub, flag_sub, flag_serve, flag_latched, flag_calls}
use reiny.Wire.Hash.{endpoint_hash}
use reiny.Link.State.{
  Env, Link, LocalType, PortRef, Error, table_full, hash_collision, schema_mismatch, started_error,
  not_declared, unknown_port, wrong_direction, wrong_type, Act, ◌>>=◌, ◌>>◌, check,
}
use reiny.Link.Emit.{hello_payload}

-- `ports.iter().find(|port| port.name == name && port.direction == direction)`
find_port : ℕ → Bytes → PortDirection → List StaticPort → Option PortRef
find_port place name direction [] = none
find_port place name direction (port ∷ rest) =
    elim (bytes_eq port.name name && direction_eq port.direction direction) [
      | true ↦ some (record { place = place; port = port })
      | false ↦ find_port (place + 1) name direction rest
    ]

abbrev option_bytes_eq : Option Bytes → Option Bytes → Bool
option_bytes_eq none none = true
option_bytes_eq (some a) (some b) = bytes_eq a b
option_bytes_eq _ _ = false

abbrev option_number_eq : Option ℕ → Option ℕ → Bool
option_number_eq none none = true
option_number_eq (some a) (some b) = a == b
option_number_eq _ _ = false

abbrev response_name : Option PortType → Option Bytes
response_name none = none
response_name (some r) = some r.ty

abbrev response_schema : Option PortType → Option ℕ
response_schema none = none
response_schema (some r) = some r.schema

-- The checks on the port that was found.
match_port : MessageType → Option PortType → PortRef → Result Error PortRef
match_port t response found =
    if not (bytes_eq found.port.ty t.type_name)
      || not (option_bytes_eq (response_name found.port.response) (response_name response))
    then err wrong_type
    else if not (found.port.schema == t.schema_fingerprint)
        || not (option_number_eq (response_schema found.port.response) (response_schema response))
    then err schema_mismatch
    else ok found

-- `Link::port`
unfoldable pub port :
    MessageType → Bytes → PortDirection → Option PortType → Link → Result Error PortRef
unfolding find_port match_port
port t name direction response l = elim (find_port 0 name direction l.ports) [
  | some found ↦ match_port t response found
  | none ↦
      if any (λ (p : StaticPort). bytes_eq p.name name) l.ports
      then err wrong_direction
      else err unknown_port
]

-- `self.declared.iter().flatten().any(|declared| core::ptr::eq(*declared, port))`
abbrev pub is_declared : Link → PortRef → Bool
is_declared l found = any (λ place. place == found.place) (filled l.declared)

unfoldable pub check_port :
    MessageType → Bytes → PortDirection → Option PortType → Link → Result Error (Unit {0})
unfolding port
check_port t name direction response l = elim (port t name direction response l) [
  | err e ↦ err e
  | ok found ↦ if is_declared l found then ok tt else err not_declared
]

-- What the loop of `declare_type` over our own types comes to.
pub data Declared : Type 0 where
  collides : Bytes → Declared
  updated : List (Option LocalType) → Declared
  absent : Declared

abbrev keep_slot : Option LocalType → Declared → Declared
keep_slot slot (collides existing) = collides existing
keep_slot slot (updated slots) = updated (slot ∷ slots)
keep_slot slot absent = absent

scan_local : ℕ → PortRef → ℕ → List (Option LocalType) → Declared
scan_local hash found flag [] = absent
scan_local hash found flag (none ∷ slots) = keep_slot none (scan_local hash found flag slots)
scan_local hash found flag (some t ∷ slots) =
    let later = keep_slot (some t) (scan_local hash found flag slots) in
    if t.hash == hash && not (bytes_eq t.port.port.name found.port.name)
    then collides t.port.port.name
    else if t.port.place == found.place
    then updated (some (record t { flags = bit_or t.flags flag }) ∷ slots)
    else later

unfoldable pub declare_type : PortRef → ℕ → Act (Unit {0})
unfolding scan_local
declare_type found flag l =
    let hash = endpoint_hash l.id found.port.name in
    elim (scan_local hash found flag l.local) [
      | collides existing ↦ (err (hash_collision existing found.port.name), l)
      | updated slots ↦ (ok tt, record l { local = slots })
      | absent ↦ if is_full l.local then (err table_full, l) else (
        ok tt,
        record l {
          local =
              fill_free
                (record {
                  hash = hash;
                  name = found.port.ty;
                  schema = found.port.schema;
                  flags = flag;
                  port = found;
                })
                l.local;
        },
      )
    ]

-- The mark that a port is declared, unless it has one already.
abbrev mark_declared : PortRef → Bool → Act (Unit {0})
mark_declared found true l = (ok tt, l)
mark_declared found false l =
    if is_full l.declared
    then (err table_full, l)
    else (ok tt, record l { declared = fill_free found.place l.declared })

-- The response contract of a service.
abbrev pub response_type : Service → Option PortType
response_type s =
    some (record { ty = s.response.type_name; schema = s.response.schema_fingerprint })

module _ (env : Env) where
  -- A Hello that cannot be built undoes the declaration.
  probe_hello : List (Option LocalType) → Act (Unit {0})
  probe_hello previous l =
      let probed = hello_payload env false l in
      elim probed.0 [
        | err e ↦ (err e, record probed.1 { local = previous })
        | ok _ ↦ (ok tt, probed.1)
      ]

  declare_port : PortRef → ℕ → Act (Unit {0})
  unfolding declare_type probe_hello
  declare_port found flag l =
      let already_declared = is_declared l found in
      if not already_declared && is_full l.declared
      then (err table_full, l)
      else (do declare_type found flag; probe_hello l.local; mark_declared found already_declared) l

  unfoldable pub declare :
      MessageType → Bytes → PortDirection → ℕ → Option PortType → Act (Unit {0})
  unfolding declare_port
  declare t name direction flag response l =
      if l.started
      then (err started_error, l)
      else (do found ← check (port t name direction response); declare_port found flag) l

  pub publishes : MessageType → Bytes → Act (Unit {0})
  publishes t name = declare t name output flag_pub none

  pub publishes_latched : MessageType → Bytes → Act (Unit {0})
  publishes_latched t name = declare t name output (bit_or flag_pub flag_latched) none

  pub subscribes : MessageType → Bytes → Act (Unit {0})
  subscribes t name = declare t name input flag_sub none

  pub declare_rpc : Service → Bytes → PortDirection → ℕ → Act (Unit {0})
  declare_rpc s name direction flag = declare s.request name direction flag (response_type s)

  pub rpc_server_port : Service → Bytes → Act (Unit {0})
  unfolding declare_rpc
  rpc_server_port s name = declare_rpc s name rpc_server flag_serve

  pub rpc_client_port : Service → Bytes → Act (Unit {0})
  unfolding declare_rpc
  rpc_client_port s name = declare_rpc s name rpc_client flag_calls
