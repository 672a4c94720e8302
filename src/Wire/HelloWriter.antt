-- ===== src/Wire/HelloWriter.antt =====
-- `hello_write` of crates/reiny-link/src/wire.rs. It returns its result and the buffer it leaves.
pub mod Laws
use reiny.Prelude.{
  ℕ, ◌+◌, Bool, true, false, Result, ok, err, List, [], ◌∷◌, Bytes, length, splice, bit_or, ltb,
  if◌then◌else◌, to_le_bytes,
}
use reiny.Core.{schema_fingerprint_version}
use reiny.Wire.Types.{WireError, too_large, hello_ack, hello_bridge}
use reiny.Wire.Table.{HelloEntry}
use reiny.Wire.EntryWriter.{write_entry}
use reiny.Wire.Writer.{Writer, Write, ◌>>=◌, ◌>>◌, write_u8, write_bytes, write_str}

-- `if ack { HELLO_ACK } else { 0 } | if bridge { HELLO_BRIDGE } else { 0 }`
abbrev pub hello_flags : Bool → Bool → ℕ
hello_flags ack bridge = bit_or (if ack then hello_ack else 0) (if bridge then hello_bridge else 0)

abbrev pub position : Write ℕ
position w = (ok w.pos, w)

-- `w.out[at] = v`
abbrev pub patch : ℕ → ℕ → Write (Unit {0})
patch at v w = (ok tt, record w { out = splice w.out at (v ∷ []) })

-- `count.checked_add(1).ok_or(WireError::TooLarge)?`
abbrev pub count_up : ℕ → Write ℕ
count_up count w = if ltb (count + 1) 256 then (ok (count + 1), w) else (err too_large, w)

-- The loop over the entries, and the final count.
pub write_entries : ℕ → List HelloEntry → Write ℕ
write_entries count [] = λ w. (ok count, w)
write_entries count (e ∷ rest) = do
  write_entry e
  count' ← count_up count
  write_entries count' rest

pub write_table : Bool → Bool → Bytes → List HelloEntry → Write ℕ
write_table ack bridge id entries = do
  write_u8 (hello_flags ack bridge)
  write_bytes (to_le_bytes 2 schema_fingerprint_version)
  write_str id
  count_at ← position
  write_u8 0
  count ← write_entries 0 entries
  patch count_at count
  position

unfoldable pub hello_write :
    Bytes → Bool → Bool → Bytes → List HelloEntry → Result WireError ℕ × Bytes
unfolding write_table write_entries
hello_write out ack bridge id entries =
    let written = write_table ack bridge id entries (record { out = out; pos = 0 }) in
    (written.0, written.1.out)
