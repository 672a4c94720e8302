-- ===== src/Core.antt =====
-- crates/reiny-core/src/lib.rs: the generated static port contract. A `&'static str` is the list of
-- its UTF-8 bytes, and the two Boolean equalities are the derived `PartialEq` of the source.
use reiny.Prelude.{ℕ, Bool, true, false, ◌&&◌, Option, List, Bytes, bytes_eq}

-- `SCHEMA_FINGERPRINT_VERSION`
abbrev pub schema_fingerprint_version : ℕ
schema_fingerprint_version = 2

pub data PortDirection : Type 0 where
  input output rpc_server rpc_client : PortDirection

abbrev pub direction_eq : PortDirection → PortDirection → Bool
direction_eq input input = true
direction_eq output output = true
direction_eq rpc_server rpc_server = true
direction_eq rpc_client rpc_client = true
direction_eq _ _ = false

pub record PortType : Type 0 where
  pub ty : Bytes
  pub schema : ℕ

pub record StaticEndpointAddress : Type 0 where
  pub namespace : Bytes
  pub port : Bytes

abbrev pub address_eq : StaticEndpointAddress → StaticEndpointAddress → Bool
address_eq a b = bytes_eq a.namespace b.namespace && bytes_eq a.port b.port

pub record StaticPort : Type 0 where
  pub name : Bytes
  pub direction : PortDirection
  pub ty : Bytes
  pub schema : ℕ
  pub response : Option PortType
  pub sources : List StaticEndpointAddress

-- What the generated code gives of a `MessageType`: its name and its schema fingerprint. A
-- `Service` is its request type with the type of its response.
pub record MessageType : Type 0 where
  pub type_name : Bytes
  pub schema_fingerprint : ℕ

pub record Service : Type 0 where
  pub request : MessageType
  pub response : MessageType
