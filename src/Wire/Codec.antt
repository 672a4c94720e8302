-- ===== src/Wire/Codec.antt =====
-- The crates `crc` and `cobs`, which crates/reiny-link/src/wire.rs calls and the repository does not
-- hold: a parameter of the model, and the documented behaviour that the theorems rely on.
use reiny.Prelude.{ℕ, ◌≤◌, ◌<◌, ◌≡◌, Option, some, Bytes, All, IsByte, IsU16, length, take}

pub record Codec : Type 0 where
  -- `CRC.checksum(bytes)`
  pub checksum : Bytes → ℕ
  -- What `cobs::encode(raw, out)` writes at the front of `out`; it returns how much that is.
  pub encode : Bytes → Bytes
  -- `cobs::max_encoding_length(n)`
  pub max_encoding_length : ℕ → ℕ
  -- What `cobs::decode_in_place(buf)` makes of `buf`, and the decoded length it returns.
  pub decode_in_place : Bytes → Bytes × Option ℕ

pub record IsCodec (c : Codec) : Type 0 where
  -- A CRC-16 is a `u16`.
  pub checksum_range : (bs : Bytes) → IsU16 (c.checksum bs)
  -- COBS writes no zero byte, and no more than `max_encoding_length`.
  pub encode_nonzero : (raw : Bytes) → All IsByte raw → All (λ b. 0 < b) (c.encode raw)
  pub encode_bytes : (raw : Bytes) → All IsByte raw → All IsByte (c.encode raw)
  pub encode_length : (raw : Bytes) → length (c.encode raw) ≤ c.max_encoding_length (length raw)
  -- Decoding works inside the buffer and undoes encoding.
  pub decode_length : (buf : Bytes) → length (c.decode_in_place buf).0 ≡ length buf
  pub decode_bytes : (buf : Bytes) → All IsByte buf → All IsByte (c.decode_in_place buf).0
  pub decode_within : (buf : Bytes) (n : ℕ) → (c.decode_in_place buf).1 ≡ some n → n ≤ length buf
  pub decode_encode :
      (raw : Bytes)
      → All IsByte raw
      → ((c.decode_in_place (c.encode raw)).1 ≡ some (length raw))
        × (take (length raw) (c.decode_in_place (c.encode raw)).0 ≡ raw)
