-- ===== src/Wire/Text.antt =====
-- The checks on names of crates/reiny-link/src/wire.rs (`valid_port`, `valid_namespace`,
-- `valid_type`) and `str::from_utf8`.
use reiny.Prelude.{
  ℕ, zero, suc, Bool, true, false, not, ◌&&◌, ◌||◌, Option, none, some, [], ◌∷◌, Bytes, ltb, ◌==◌,
  if◌then◌else◌, all, bytes_eq, between, is_empty, is_ascii_digit, is_ascii_alphanumeric, split,
}

-- A lead byte: how many bytes follow it, and the range of the first of them.
record Lead : Type 0 where
  more : ℕ
  lo : ℕ
  hi : ℕ

abbrev follow : ℕ → ℕ → ℕ → Option Lead
follow more lo hi = some (record { more = more; lo = lo; hi = hi })

lead : ℕ → Option Lead
lead b =
    if ltb b 0x80
    then follow 0 0x80 0xbf
    else if between 0xc2 0xdf b
    then follow 1 0x80 0xbf
    else if b == 0xe0
    then follow 2 0xa0 0xbf
    else if b == 0xed
    then follow 2 0x80 0x9f
    else if between 0xe1 0xef b
    then follow 2 0x80 0xbf
    else if b == 0xf0
    then follow 3 0x90 0xbf
    else if between 0xf1 0xf3 b
    then follow 3 0x80 0xbf
    else if b == 0xf4
    then follow 3 0x80 0x8f
    else none

-- `more` bytes are due, the first of them between `lo` and `hi`.
utf8_loop : ℕ → ℕ → ℕ → Bytes → Bool
unfolding lead
utf8_loop zero lo hi [] = true
utf8_loop (suc more) lo hi [] = false
utf8_loop zero lo hi (b ∷ bs) = elim (lead b) [
  | none ↦ false
  | some l ↦ utf8_loop l.more l.lo l.hi bs
]
utf8_loop (suc more) lo hi (b ∷ bs) = between lo hi b && utf8_loop more 0x80 0xbf bs

-- `core::str::from_utf8`
unfoldable pub from_utf8 : Bytes → Option Bytes
unfolding utf8_loop
from_utf8 bs = if utf8_loop 0 0x80 0xbf bs then some bs else none

-- `b"_.-".contains(&b)`
is_port_mark : ℕ → Bool
is_port_mark b = b == b'_' || b == b'.' || b == b'-'

is_port_byte : ℕ → Bool
unfolding is_ascii_alphanumeric is_port_mark
is_port_byte b = is_ascii_alphanumeric b || is_port_mark b

unfoldable pub valid_port : Bytes → Bool
unfolding is_port_byte
valid_port port =
    not (is_empty port)
    && all is_port_byte port
    && not (bytes_eq port (b'.' ∷ []))
    && not (bytes_eq port (b'.' ∷ b'.' ∷ []))

unfoldable pub valid_namespace : Bytes → Bool
unfolding valid_port split
valid_namespace namespace = not (is_empty namespace) && all valid_port (split b'/' namespace)

-- `part.as_bytes()[0].is_ascii_digit()`, on a part that is not empty.
abbrev starts_with_digit : Bytes → Bool
unfolding is_ascii_digit
starts_with_digit [] = false
starts_with_digit (b ∷ bs) = is_ascii_digit b

valid_type_part : Bytes → Bool
unfolding is_ascii_alphanumeric is_ascii_digit
valid_type_part part =
    not (is_empty part)
    && all (λ b. is_ascii_alphanumeric b || b == b'_') part
    && not (starts_with_digit part)

unfoldable pub valid_type : Bytes → Bool
unfolding valid_type_part split
valid_type name = not (is_empty name) && all valid_type_part (split b'.' name)
