-- ===== src/Wire/Frame/Layout.antt =====
-- The bytes that a frame consists of, as the head of crates/reiny-link/src/wire.rs draws them, and
-- what `seal` makes of a buffer.
use reiny.Prelude.{
  ℕ, ◌+◌, ◌-◌, ◌≤◌, ◌≡◌, refl, sym, ap, ◌∙◌, arith, ok, [], ◌∷◌, ◌++◌, append_assoc, Bytes, IsByte,
  All, All-append, length, take, drop, slice, length-append, take-append_add, drop-append_add,
  le→ltb, to_le_bytes, to_le_bytes-IsByte,
}
use reiny.Wire.Types.{Header, IsHeader, Kind, kind_code, overhead, header_len}
use reiny.Wire.Codec.{Codec}
use reiny.Wire.Frame.{magic, write_frame, seal}

-- [RY][epoch][kind][hash LE][seq]
abbrev pub header_bytes : Header → Bytes
header_bytes h = magic ++ (kind_code h.kind ∷ (to_le_bytes 4 h.hash ++ (h.seq ∷ [])))

abbrev pub body_bytes : Header → Bytes → Bytes
body_bytes h payload = header_bytes h ++ payload

-- Header, payload, and the CRC of both.
abbrev pub frame_bytes : Codec → Header → Bytes → Bytes
frame_bytes c h payload = body_bytes h payload ++ to_le_bytes 2 (c.checksum (body_bytes h payload))

pub length-frame_bytes :
    (c : Codec) (h : Header) (payload : Bytes)
    → length (frame_bytes c h payload) ≡ overhead + length payload
length-frame_bytes c h payload =
    omega (arith, length-append payload (to_le_bytes 2 (c.checksum (body_bytes h payload))))

pub kind_code-IsByte : (k : Kind) → IsByte (kind_code k)
kind_code-IsByte Kind.hello = omega arith
kind_code-IsByte k = omega arith

header_bytes-IsByte : (h : Header) → IsHeader h → All IsByte (header_bytes h)
header_bytes-IsByte h r = omega (arith, kind_code-IsByte h.kind)

pub body_bytes-IsByte :
    (h : Header) (payload : Bytes)
    → IsHeader h
    → All IsByte payload
    → All IsByte (body_bytes h payload)
body_bytes-IsByte h payload r p =
    All-append IsByte (header_bytes h) payload (header_bytes-IsByte h r) p

pub frame_bytes-IsByte :
    (c : Codec) (h : Header) (payload : Bytes)
    → IsHeader h
    → All IsByte payload
    → All IsByte (frame_bytes c h payload)
frame_bytes-IsByte c h payload r p =
    All-append IsByte (body_bytes h payload) _ (body_bytes-IsByte h payload r p)
      (to_le_bytes-IsByte 2 (c.checksum (body_bytes h payload)))

-- The nine bytes in front of a buffer that has room for a header.
pub data Room : Bytes → Type 0 where
  room : (a b c d e f g h i : ℕ) (rest : Bytes) → Room (a ∷ b ∷ c ∷ d ∷ e ∷ f ∷ g ∷ h ∷ i ∷ rest)

pub has-Room : (buf : Bytes) → header_len ≤ length buf → Room buf
has-Room (a ∷ b ∷ c ∷ d ∷ e ∷ f ∷ g ∷ h ∷ i ∷ rest) l = room a b c d e f g h i rest
has-Room short l = absurd (omega arith)

abbrev pub sealed : Codec → Bytes → Header → ℕ → Bytes
sealed c buf h n =
    frame_bytes c h (slice buf header_len (header_len + n)) ++ drop (overhead + n) buf

write_frame-Room :
    (c : Codec) (h : Header) (n : ℕ) {buf : Bytes}
    → Room buf
    → write_frame c buf h n ≡ sealed c buf h n
unfolding write_frame
write_frame-Room c h n (room x0 x1 x2 x3 x4 x5 x6 x7 x8 rest) =
    (λ i. close (front i) (back i))
    ∙ sym
        (append_assoc (body_bytes h payload) (to_le_bytes 2 (c.checksum (body_bytes h payload))) _)
  where
    nine : Bytes
    nine = x0 ∷ x1 ∷ x2 ∷ x3 ∷ x4 ∷ x5 ∷ x6 ∷ x7 ∷ x8 ∷ []

    payload : Bytes
    payload = take (header_len + n - header_len) rest

    close : Bytes → Bytes → Bytes
    close t d = t ++ (to_le_bytes 2 (c.checksum t) ++ d)

    front : take (header_len + n) (header_bytes h ++ rest) ≡ body_bytes h payload
    front =
        take-append_add (header_bytes h) rest n
        ∙ ap (λ (k : ℕ). header_bytes h ++ take k rest) (omega arith)

    behind :
        (nine : Bytes) → length nine ≡ 9 → drop (overhead + n) (nine ++ rest) ≡ drop (n + 2) rest
    behind nine e =
        ap (λ (k : ℕ). drop k (nine ++ rest)) (omega arith) ∙ drop-append_add nine rest (n + 2)

    back : drop (header_len + n + 2) (header_bytes h ++ rest) ≡ drop (overhead + n) (nine ++ rest)
    back =
        ap (λ (k : ℕ). drop k (header_bytes h ++ rest)) (omega arith)
        ∙ behind (header_bytes h) refl
        ∙ sym (behind nine refl)

-- Where the frame fits, `seal` puts it around the payload that stands in the buffer.
pub seal_lem :
    (c : Codec) (buf : Bytes) (h : Header) (n : ℕ)
    → overhead + n ≤ length buf
    → seal c buf h n ≡ ok (overhead + n, sealed c buf h n)
unfolding seal
seal_lem c buf h n fits =
    rw
      (le→ltb (length buf) (overhead + n) fits, write_frame-Room c h n (has-Room buf (omega arith)))
