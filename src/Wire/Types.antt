-- ===== src/Wire/Types.antt =====
-- The constants, kinds, headers and errors of crates/reiny-link/src/wire.rs.
use reiny.Prelude.{ℕ, ◌+◌, Option, none, some, IsByte, IsU32, ◌==◌, if◌then◌else◌}

-- Magic 2, epoch 1, kind 1, hash 4, seq 1.
abbrev pub header_len : ℕ
header_len = 9

abbrev pub epoch : ℕ
epoch = 2

abbrev pub trailer_len : ℕ
trailer_len = 2

abbrev pub overhead : ℕ
overhead = header_len + trailer_len

abbrev pub delimiter : ℕ
delimiter = 0

pub data Kind : Type 0 where
  hello data_frame request reply error_frame ping : Kind

-- `kind as u8`
abbrev pub kind_code : Kind → ℕ
kind_code hello = 0
kind_code data_frame = 1
kind_code request = 2
kind_code reply = 3
kind_code error_frame = 4
kind_code ping = 5

-- `Kind::from_u8`
unfoldable pub from_u8 : ℕ → Option Kind
from_u8 b =
    if b == 0
    then some hello
    else if b == 1
    then some data_frame
    else if b == 2
    then some request
    else if b == 3
    then some reply
    else if b == 4
    then some error_frame
    else if b == 5
    then some ping
    else none

pub record Header : Type 0 where
  pub kind : Kind
  pub hash : ℕ
  pub seq : ℕ

-- A header whose fields lie in their machine types.
pub record IsHeader (h : Header) : Type 0 where
  pub hash_range : IsU32 h.hash
  pub seq_range : IsByte h.seq

pub data WireError : Type 0 where
  too_large short bad_crc bad_cobs : WireError
  bad_kind : ℕ → WireError
  bad_epoch malformed : WireError

-- `HELLO_ACK` and `HELLO_BRIDGE`
abbrev pub hello_ack : ℕ
hello_ack = 1

abbrev pub hello_bridge : ℕ
hello_bridge = 2

-- The module `flags`.
abbrev pub flag_pub : ℕ
flag_pub = 1

abbrev pub flag_sub : ℕ
flag_sub = 2

abbrev pub flag_serve : ℕ
flag_serve = 4

abbrev pub flag_latched : ℕ
flag_latched = 8

abbrev pub flag_schema_fingerprint : ℕ
flag_schema_fingerprint = 16

abbrev pub flag_calls : ℕ
flag_calls = 32
