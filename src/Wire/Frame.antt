-- ===== src/Wire/Frame.antt =====
-- `seal`, `parse`, `encode` and `decode_in_place` of crates/reiny-link/src/wire.rs, over the crates
-- `crc` and `cobs`. A function that writes to a buffer returns the new buffer with its result, and
-- leaves the buffer as it was where it fails.
pub mod Layout
pub mod RoundTrip
pub mod Accepted
pub mod Carried
use reiny.Prelude.{
  ℕ, ◌+◌, ◌-◌, Result, ok, err, ◌>>=◌, ◌>>◌, refuse, ok_or, Option, none, some, not, List, [], ◌∷◌,
  Bytes, length, take, splice, slice, get_or, ltb, ◌==◌, if◌then◌else◌, to_le_bytes, from_le_bytes,
  bytes_eq,
}
use reiny.Wire.Types.{
  WireError, too_large, short, bad_crc, bad_cobs, bad_kind, bad_epoch, Header, kind_code, from_u8,
  header_len, trailer_len, overhead, epoch, delimiter,
}
use reiny.Wire.Codec.{Codec}

-- `[b'R', b'Y', EPOCH]`
abbrev pub magic : Bytes
magic = b'R' ∷ b'Y' ∷ epoch ∷ []

-- `buf[i]`, at an index inside the buffer.
abbrev pub byte_at : Bytes → ℕ → ℕ
byte_at buf i = get_or buf i 0

module _ (c : Codec) where
  -- `encoded_max`
  abbrev pub encoded_max : ℕ → ℕ
  encoded_max raw_len = c.max_encoding_length raw_len + 1

  -- The writes of `seal`, in their order.
  write_frame : Bytes → Header → ℕ → Bytes
  write_frame buf header payload_len =
      let with_magic = splice buf 0 magic in
      let with_kind = splice with_magic 3 (kind_code header.kind ∷ []) in
      let with_hash = splice with_kind 4 (to_le_bytes 4 header.hash) in
      let body = splice with_hash 8 (header.seq ∷ []) in
      let crc = c.checksum (take (header_len + payload_len) body) in
      splice body (header_len + payload_len) (to_le_bytes 2 crc)

  unfoldable pub seal : Bytes → Header → ℕ → Result WireError (ℕ × Bytes)
  unfolding write_frame
  seal buf header payload_len =
      let raw_len = overhead + payload_len in
      if ltb (length buf) raw_len
      then err too_large
      else ok (raw_len, write_frame buf header payload_len)

  unfoldable pub parse : Bytes → Result WireError (Header × Bytes)
  parse frame =
      let body_len = length frame - trailer_len in
      let expected = from_le_bytes (slice frame body_len (body_len + 2)) in
      do
        refuse (ltb (length frame) overhead) short
        refuse (not (c.checksum (take body_len frame) == expected)) bad_crc
        refuse (not (bytes_eq (take 3 frame) magic)) bad_epoch
        kind ← ok_or (from_u8 (byte_at frame 3)) (bad_kind (byte_at frame 3))
        let hash = from_le_bytes (slice frame 4 8)
        ok (
          record { kind = kind; hash = hash; seq = byte_at frame 8 },
          slice frame header_len body_len,
        )

  -- `out` receives the encoding and the delimiter at its front.
  unfoldable pub encode : Bytes → Bytes → Result WireError (ℕ × Bytes)
  encode raw out =
      if ltb (length out) (c.max_encoding_length (length raw) + 1)
      then err too_large
      else let encoded = c.encode raw in
        let n = length encoded in ok (n + 1, splice (splice out 0 encoded) n (delimiter ∷ []))

  unfoldable pub decode_in_place : Bytes → Bytes × Result WireError ℕ
  decode_in_place buf = let decoded = c.decode_in_place buf in (decoded.0, ok_or decoded.1 bad_cobs)
