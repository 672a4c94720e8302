-- ===== src/Wire/Table.antt =====
-- The entries of a Hello, from crates/reiny-link/src/wire.rs: `EndpointRef`, `Sources`, `HelloType`
-- and `HelloEntry`.
use reiny.Prelude.{ℕ, Bool, true, false, ◌&&◌, Option, none, some, List, Bytes, ◌==◌, bytes_eq}
use reiny.Core.{StaticEndpointAddress}

pub record EndpointRef : Type 0 where
  pub namespace : Bytes
  pub port : Bytes

abbrev pub endpoint_eq : EndpointRef → EndpointRef → Bool
endpoint_eq a b = bytes_eq a.namespace b.namespace && bytes_eq a.port b.port

pub data Sources : Type 0 where
  from_static : List StaticEndpointAddress → Sources
  from_wire : Bytes → Sources

pub record HelloType : Type 0 where
  pub name : Bytes
  pub schema : ℕ

abbrev pub hello_type_eq : Option HelloType → Option HelloType → Bool
hello_type_eq none none = true
hello_type_eq (some a) (some b) = bytes_eq a.name b.name && a.schema == b.schema
hello_type_eq _ _ = false

pub record HelloEntry : Type 0 where
  pub hash : ℕ
  pub flags : ℕ
  pub schema : ℕ
  pub name : Bytes
  pub port : Bytes
  pub response : Option HelloType
  pub sources : Sources
