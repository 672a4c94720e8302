-- ===== src/Wire/Frame/Accepted.antt =====
-- What `parse` accepts is what `seal` writes, byte for byte.
use reiny.Prelude.{
  ℕ, ◌+◌, ◌-◌, ◌≤◌, ◌≡◌, sym, ap, ◌∙◌, arith, ok, [], ◌∷◌, ◌++◌, Bytes, IsByte, All, All-drop,
  length, take, drop, slice, length-drop, some, take-append_add, take-append-drop, take-all,
  to_le_bytes, from_le_bytes, to_le_bytes-from_le_bytes, bytes_eq_iff,
}
use reiny.Wire.Types.{Header, Kind, kind_code, from_u8, overhead, header_len, trailer_len}
use reiny.Wire.Codec.{Codec}
use reiny.Wire.Frame.{magic, parse, byte_at}
use reiny.Wire.Frame.Layout.{frame_bytes, body_bytes, header_bytes, Room, room, has-Room}

kind_code-from_u8 : (b : ℕ) (k : Kind) → from_u8 b ≡ some k → kind_code k ≡ b
unfolding from_u8
kind_code-from_u8 b k e = ground arith

module _ (c : Codec) (frame : Bytes) (h : Header) (payload : Bytes) where
  pub record Accepted : Type 0 where
    pub long : overhead ≤ length frame
    pub crc :
        c.checksum (take (length frame - trailer_len) frame)
        ≡ from_le_bytes (slice frame (length frame - trailer_len) (length frame - trailer_len + 2))
    pub magic_matches : take 3 frame ≡ magic
    pub kind_matches : from_u8 (byte_at frame 3) ≡ some h.kind
    pub hash_matches : h.hash ≡ from_le_bytes (slice frame 4 8)
    pub seq_matches : h.seq ≡ byte_at frame 8
    pub payload_matches : payload ≡ slice frame header_len (length frame - trailer_len)

  pub parse-Accepted : parse c frame ≡ ok (h, payload) → Accepted
  unfolding parse
  parse-Accepted e = ground (arith, bytes_eq_iff (take 3 frame) magic)

-- The two bytes of the CRC, read and written back.
le_pair : (b : Bytes) → length b ≡ 2 → All IsByte b → to_le_bytes 2 (from_le_bytes b) ≡ b
le_pair b e h =
    ap (λ (n : ℕ). to_le_bytes n (from_le_bytes b)) (sym e) ∙ to_le_bytes-from_le_bytes b h

-- The header of a frame that is accepted.
header_accepted :
    (c : Codec) (h : Header) (payload : Bytes) {frame : Bytes}
    → Room frame
    → All IsByte frame
    → Accepted c frame h payload
    → take (length frame - trailer_len) frame ≡ body_bytes h payload
header_accepted c h payload (room x0 x1 x2 x3 x4 x5 x6 x7 x8 rest) bytes a =
    cut ∙ ap (λ (hd : Bytes). hd ++ payload) nine_eq
  where
    nine : Bytes
    nine = x0 ∷ x1 ∷ x2 ∷ x3 ∷ x4 ∷ x5 ∷ x6 ∷ x7 ∷ x8 ∷ []

    hash_bytes : to_le_bytes 4 h.hash ≡ x4 ∷ x5 ∷ x6 ∷ x7 ∷ []
    hash_bytes =
        ap (to_le_bytes 4) a.hash_matches
        ∙ to_le_bytes-from_le_bytes (x4 ∷ x5 ∷ x6 ∷ x7 ∷ []) (omega arith)

    nine_eq : nine ≡ header_bytes h
    nine_eq = ground (
      arith,
      hash_bytes,
      a.magic_matches,
      a.seq_matches,
      kind_code-from_u8 x3 h.kind a.kind_matches,
    )

    cut : take (length (nine ++ rest) - trailer_len) (nine ++ rest) ≡ nine ++ payload
    cut =
        ap (λ (n : ℕ). take n (nine ++ rest)) (let l = a.long in omega arith)
        ∙ take-append_add nine rest (length (nine ++ rest) - trailer_len - header_len)
        ∙ ap (λ (p : Bytes). nine ++ p) (sym a.payload_matches)

-- A byte string that `parse` accepts is, byte for byte, the frame of the header and the payload that
-- it returns, its check sum included.
pub parse_sound :
    (c : Codec) (frame : Bytes) (h : Header) (payload : Bytes)
    → All IsByte frame
    → parse c frame ≡ ok (h, payload)
    → frame ≡ frame_bytes c h payload
parse_sound c frame h payload bytes e = sym (take-append-drop n frame) ∙ (λ i. front i ++ back i)
  where
    a : Accepted c frame h payload
    a = parse-Accepted c frame h payload e

    n : ℕ
    n = length frame - trailer_len

    front : take n frame ≡ body_bytes h payload
    front = header_accepted c h payload (has-Room frame (let l = a.long in omega arith)) bytes a

    pair : length (drop n frame) ≡ 2
    pair = let l = a.long in omega (arith, length-drop n frame)

    crc_eq : from_le_bytes (drop n frame) ≡ c.checksum (body_bytes h payload)
    crc_eq =
        ap from_le_bytes (sym (take-all (drop n frame) (n + 2 - n) (omega (arith, pair))))
        ∙ sym a.crc
        ∙ ap c.checksum front

    back : drop n frame ≡ to_le_bytes 2 (c.checksum (body_bytes h payload))
    back =
        sym (le_pair (drop n frame) pair (All-drop IsByte n frame bytes))
        ∙ ap (to_le_bytes 2) crc_eq
