-- ===== src/Wire/Frame/Carried.antt =====
-- A frame through `seal`, `encode`, `decode_in_place` and `parse`: what is on the wire between two
-- delimiters, and what the other side reads.
use reiny.Prelude.{
  ℕ, ◌+◌, ◌-◌, ◌≤◌, ◌≡◌, refl, ap, ◌∙◌, arith, ok, [], ◌∷◌, ◌++◌, Bytes, IsByte, All, length, take,
  drop, slice, length-take, length-drop, take-append_length, drop-append_add, le→ltb, drop-drop,
}
use reiny.Wire.Types.{Header, IsHeader, overhead, header_len, delimiter}
use reiny.Wire.Codec.{Codec, IsCodec}
use reiny.Wire.Frame.{seal, parse, encode, decode_in_place, encoded_max}
use reiny.Wire.Frame.Layout.{frame_bytes, frame_bytes-IsByte, length-frame_bytes, seal_lem}
use reiny.Wire.Frame.RoundTrip.{parse-frame_bytes}

-- For codecs that keep their laws, a header in range and a buffer with room, `seal` succeeds, and
-- `parse` reads what it left at the front of the buffer back as that header and the payload that
-- stood in the buffer.
pub parse-seal :
    (c : Codec) (buf : Bytes) (h : Header) (n : ℕ)
    → IsCodec c
    → IsHeader h
    → overhead + n ≤ length buf
    → (sealed : Bytes) × (seal c buf h n ≡ ok (overhead + n, sealed))
      × (parse c (take (overhead + n) sealed) ≡ ok (h, slice buf header_len (header_len + n)))
parse-seal c buf h n laws r fits = (
  _,
  seal_lem c buf h n fits,
  ap (parse c) (take-append_length frame (drop (overhead + n) buf) (overhead + n) width)
      ∙ parse-frame_bytes c laws h payload r,
)
  where
    payload : Bytes
    payload = slice buf header_len (header_len + n)

    frame : Bytes
    frame = frame_bytes c h payload

    width : overhead + n ≡ length frame
    width = omega (
      arith,
      length-frame_bytes c h payload,
      length-take (header_len + n - header_len) (drop header_len buf),
      length-drop header_len buf,
    )

-- What `encode` leaves in its buffer: the encoding, the delimiter, and the rest as it was.
pub encode_lem :
    (c : Codec) (raw out : Bytes)
    → IsCodec c
    → encoded_max c (length raw) ≤ length out
    → encode c raw out
      ≡ ok (
        length (c.encode raw) + 1,
        c.encode raw ++ (delimiter ∷ drop (length (c.encode raw) + 1) out),
      )
unfolding encode
encode_lem c raw out laws fits =
    let bound = laws.encode_length raw in
    let start : 0 + length (c.encode raw) ≡ length (c.encode raw) = omega arith in
    rw (
      le→ltb (length out) (encoded_max c (length raw)) fits,
      start,
      take-append_length (c.encode raw) (drop (length (c.encode raw)) out) (length (c.encode raw))
          refl,
      drop-append_add (c.encode raw) (drop (length (c.encode raw)) out) 1,
      drop-drop (length (c.encode raw)) 1 out,
    )

-- The bytes of one frame on the wire.
abbrev pub wire_bytes : Codec → Header → Bytes → Bytes
wire_bytes c h payload = c.encode (frame_bytes c h payload) ++ (delimiter ∷ [])

-- For codecs that keep their laws, a header in range and a payload of bytes, what arrives in front
-- of a delimiter is decoded in place to the frame that was sent, and its length is returned.
pub decode-encode :
    (c : Codec) (h : Header) (payload : Bytes)
    → IsCodec c
    → IsHeader h
    → All IsByte payload
    → ((decode_in_place c (c.encode (frame_bytes c h payload))).1 ≡ ok (overhead + length payload))
      × (take (overhead + length payload) (decode_in_place c (c.encode (frame_bytes c h payload))).0
          ≡ frame_bytes c h payload)
unfolding decode_in_place
decode-encode c h payload laws r p =
    let frame = frame_bytes c h payload in
    let (n, raw) = laws.decode_encode frame (frame_bytes-IsByte c h payload r p) in
    let width = length-frame_bytes c h payload in (rw (n, width), rw (← width) raw)
