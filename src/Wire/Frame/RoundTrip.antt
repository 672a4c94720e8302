-- ===== src/Wire/Frame/RoundTrip.antt =====
-- `parse` undoes `seal`, and accepts nothing else than what `seal` writes.
use reiny.Prelude.{
  ◌+◌, ◌-◌, ◌≡◌, refl, arith, ok, Bytes, length, slice, some, drop-append_length,
  take-append_length, le→ltb, to_le_bytes, from_le_bytes-to_le_bytes, bytes_eq_refl, ==_refl,
}
use reiny.Wire.Types.{Header, IsHeader, Kind, kind_code, from_u8, overhead, header_len, trailer_len}
use reiny.Wire.Codec.{Codec, IsCodec}
use reiny.Wire.Frame.{magic, parse}
use reiny.Wire.Frame.Layout.{frame_bytes, body_bytes, length-frame_bytes}

from_u8-kind_code : (k : Kind) → from_u8 (kind_code k) ≡ some k
unfolding from_u8
from_u8-kind_code Kind.hello = refl
from_u8-kind_code k = refl

module _ (c : Codec) (laws : IsCodec c) (h : Header) (payload : Bytes) where
  body_len : length (frame_bytes c h payload) - trailer_len ≡ length (body_bytes h payload)
  body_len = omega (arith, length-frame_bytes c h payload)

  crc_slice :
      slice
        (frame_bytes c h payload)
        (length (body_bytes h payload))
        (length (body_bytes h payload) + 2)
      ≡ to_le_bytes 2 (c.checksum (body_bytes h payload))
  crc_slice =
      let two : length (body_bytes h payload) + 2 - length (body_bytes h payload) ≡ 2 =
        omega arith in
      rw (
        two,
        drop-append_length (body_bytes h payload)
            (to_le_bytes 2 (c.checksum (body_bytes h payload))) _ refl,
      )

  payload-slice :
      slice (frame_bytes c h payload) header_len (length (body_bytes h payload)) ≡ payload
  payload-slice = take-append_length payload _ _ (omega arith)

  pub parse-frame_bytes : IsHeader h → parse c (frame_bytes c h payload) ≡ ok (h, payload)
  unfolding parse
  parse-frame_bytes r = rw (
    body_len,
    crc_slice,
    payload-slice,
    take-append_length (body_bytes h payload) (to_le_bytes 2 (c.checksum (body_bytes h payload))) _
        refl,
    from_le_bytes-to_le_bytes 2 (c.checksum (body_bytes h payload)) (laws.checksum_range _),
    ==_refl (c.checksum (body_bytes h payload)),
    le→ltb (length (frame_bytes c h payload)) overhead
        (omega (arith, length-frame_bytes c h payload)),
    bytes_eq_refl magic,
    from_u8-kind_code h.kind,
    from_le_bytes-to_le_bytes 4 h.hash r.hash_range,
  )
