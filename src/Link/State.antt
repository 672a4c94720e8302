-- ===== src/Link/State.antt =====
-- The types of crates/reiny-link/src/link.rs, and the steps that its methods are made of. An array
-- `[Option<T>; N]` is the list of its slots. A `&'static StaticPort` is its place in the static
-- table with the port, so that `core::ptr::eq` compares places. `IdBuf` is the string it holds.
use reiny.Prelude.{
  ℕ, ◌+◌, ◌%◌, ◌^◌, Bool, Option, Result, ok, err, List, Bytes, length, ltb, if◌then◌else◌,
}
use reiny.Core.{StaticPort}
use reiny.Wire.Types.{Kind}
use reiny.Wire.Codec.{Codec}

-- What is fixed for one link: the crates it calls, `N`, `FRAME`, and the sizes of the two buffers.
pub record Env : Type 0 where
  pub codec : Codec
  pub n : ℕ
  pub frame : ℕ
  pub tx_size : ℕ
  pub rx_size : ℕ

pub record LinkConfig : Type 0 where
  pub ping_interval_ms : ℕ
  pub timeout_ms : ℕ

abbrev pub default_config : LinkConfig
default_config = record { ping_interval_ms = 1000; timeout_ms = 3000 }

abbrev pub id_max : ℕ
id_max = 32

pub record PortRef : Type 0 where
  pub place : ℕ
  pub port : StaticPort

pub record LocalType : Type 0 where
  pub hash : ℕ
  pub name : Bytes
  pub schema : ℕ
  pub flags : ℕ
  pub port : PortRef

pub record RemoteType : Type 0 where
  pub hash : ℕ
  pub flags : ℕ
  pub schema : ℕ
  pub mismatch : Bool

pub record PeerContract : Type 0 where
  pub peer : Bytes
  pub remote : List (Option RemoteType)
  pub ack : Bool
  pub bridge : Bool

pub record Frame : Type 0 where
  pub kind : Kind
  pub hash : ℕ
  pub seq : ℕ
  pub len : ℕ
  pub generation : ℕ

pub data Event : Type 0 where
  connected_event : Frame → Event
  disconnected_event : Event
  data_event request_event reply_event error_event : Frame → Event

pub record Stats : Type 0 where
  pub bad_frames : ℕ
  pub dropped_schema : ℕ
  pub dropped_unwanted : ℕ
  pub rx_overflow : ℕ
  pub remote_overflow : ℕ
  pub tx_full : ℕ

abbrev pub zero_stats : Stats
zero_stats = record {
  bad_frames = 0;
  dropped_schema = 0;
  dropped_unwanted = 0;
  rx_overflow = 0;
  remote_overflow = 0;
  tx_full = 0;
}

pub data Error : Type 0 where
  id_too_long table_full : Error
  hash_collision : Bytes → Bytes → Error
  schema_mismatch started_error not_declared unknown_port wrong_direction wrong_type : Error
  invalid_ports no_peer_service too_large full encode_error : Error

pub record Link : Type 0 where
  pub id : Bytes
  pub peer : Option Bytes
  pub local : List (Option LocalType)
  pub ports : List StaticPort
  pub declared : List (Option ℕ)
  pub remote : List (Option RemoteType)
  pub peer_hello : Bytes
  pub peer_hello_len : ℕ
  pub pending : List (Option (ℕ × ℕ))
  pub tx : Bytes
  pub tx_len : ℕ
  pub rx : Bytes
  pub rx_len : ℕ
  pub rx_consumed : ℕ
  pub rx_skip : Bool
  pub rx_generation : ℕ
  pub scratch : Bytes
  pub config : LinkConfig
  pub started : Bool
  pub connected : Bool
  pub bridge : Bool
  pub peer_bridge : Bool
  pub data_seq : ℕ
  pub req_seq : ℕ
  pub now_ms : ℕ
  pub last_rx_ms : ℕ
  pub last_tx_ms : ℕ
  pub stats : Stats

-- `wrapping_add(1)` at the widths that occur.
abbrev pub bump32 : ℕ → ℕ
bump32 n = (n + 1) % 2 ^ 32

abbrev pub bump16 : ℕ → ℕ
bump16 n = (n + 1) % 2 ^ 16

abbrev pub bump8 : ℕ → ℕ
bump8 n = (n + 1) % 2 ^ 8

-- A method that may fail returns its result and the link it leaves.
abbrev pub Act : Type 0 → Type 0
Act A = Link → Result Error A × Link

abbrev pub continue : {A B : Type 0} → (A → Act B) → Result Error A → Act B
continue f (ok a) l = f a l
continue f (err e) l = (err e, l)

infixl 5 ◌>>=◌ ◌>>◌
abbrev pub ◌>>=◌ : {A B : Type 0} → Act A → (A → Act B) → Act B
◌>>=◌ m f l = continue f (m l).0 (m l).1

abbrev pub ◌>>◌ : {B : Type 0} → Act (Unit {0}) → Act B → Act B
m >> k = m >>= λ _. k

abbrev pub give : {A : Type 0} → A → Act A
give a l = (ok a, l)

-- A check that only reads the link.
abbrev pub check : {A : Type 0} → (Link → Result Error A) → Act A
check f l = (f l, l)

-- `IdBuf::new`
unfoldable pub id_buf : Bytes → Result Error Bytes
id_buf s = if ltb id_max (length s) then err id_too_long else ok s
