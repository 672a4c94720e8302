-- ===== src/Tests/Samples.antt =====
-- A concrete codec that meets the laws which the theorems assume of `crc` and `cobs`: the CRC is
-- CRC-16/KERMIT, and the stuffing writes each byte as two bytes between 1 and 16.
use reiny.Prelude.{
  ℕ, zero, suc, ◌+◌, ◌-◌, ◌*◌, ◌/◌, ◌%◌, ◌^◌, ◌≤◌, ◌<◌, ◌≡◌, refl, arith, bit_xor, Option, none,
  some, [], ◌∷◌, ◌++◌, Bytes, IsByte, All, length, take, drop, ◌==◌, if◌then◌else◌,
  take-append_length, length-append, length-drop, All-append, All-drop, Bool, true, false,
  Bool-cases, inl, inr,
}
use reiny.Wire.Codec.{Codec, IsCodec}

crc_bits : ℕ → ℕ → ℕ
crc_bits zero crc = crc
crc_bits (suc n) crc = crc_bits n (if crc % 2 == 1 then bit_xor (crc / 2) 0x8408 else crc / 2)

crc_loop : ℕ → Bytes → ℕ
unfolding crc_bits
crc_loop crc [] = crc
crc_loop crc (b ∷ bs) = crc_loop (crc_bits 8 (bit_xor crc b)) bs

pub kermit : Bytes → ℕ
unfolding crc_loop
kermit bs = crc_loop 0 bs % 2 ^ 16

pub stuff : Bytes → Bytes
stuff [] = []
stuff (b ∷ bs) = (b / 16 + 1) ∷ (b % 16 + 1) ∷ stuff bs

-- Pairs of bytes to bytes.
pub unstuff : Bytes → Bytes
unstuff [] = []
unstuff (x ∷ []) = []
unstuff (x ∷ y ∷ rest) = ((x - 1) * 16 + (y - 1)) % 256 ∷ unstuff rest

pub is_even : Bytes → Bool
is_even [] = true
is_even (x ∷ []) = false
is_even (x ∷ y ∷ rest) = is_even rest

-- A last single byte is no encoding.
pub unstuff_in_place : Bytes → Bytes × Option ℕ
unfolding unstuff is_even
unstuff_in_place buf =
    if is_even buf
    then (unstuff buf ++ drop (length (unstuff buf)) buf, some (length (unstuff buf)))
    else (buf, none)

unfoldable pub sample : Codec
unfolding kermit stuff unstuff_in_place
sample = record {
  checksum = kermit;
  encode = stuff;
  max_encoding_length = λ n. 2 * n;
  decode_in_place = unstuff_in_place;
}

kermit_check : kermit (b'1' ∷ b'2' ∷ b'3' ∷ b'4' ∷ b'5' ∷ b'6' ∷ b'7' ∷ b'8' ∷ b'9' ∷ []) ≡ 0x2189
unfolding kermit
kermit_check = refl

stuff_nonzero : (bs : Bytes) → All (λ b. 0 < b) (stuff bs)
unfolding stuff
stuff_nonzero [] = tt
stuff_nonzero (b ∷ bs) = (omega arith, (omega arith, stuff_nonzero bs))

stuff_bytes : (bs : Bytes) → All IsByte bs → All IsByte (stuff bs)
unfolding stuff
stuff_bytes [] h = tt
stuff_bytes (b ∷ bs) h = (omega arith, (omega arith, stuff_bytes bs h.1))

length-stuff : (bs : Bytes) → length (stuff bs) ≡ 2 * length bs
unfolding stuff
length-stuff [] = refl
length-stuff (b ∷ bs) = omega (arith, length-stuff bs)

is_even-stuff : (bs : Bytes) → is_even (stuff bs) ≡ true
unfolding stuff is_even
is_even-stuff [] = refl
is_even-stuff (b ∷ bs) = is_even-stuff bs

unstuff-stuff : (bs : Bytes) → All IsByte bs → unstuff (stuff bs) ≡ bs
unfolding stuff unstuff
unstuff-stuff [] h = refl
unstuff-stuff (b ∷ bs) h =
    let same : ((b / 16 + 1 - 1) * 16 + (b % 16 + 1 - 1)) % 256 ≡ b = omega arith in
    rw (unstuff-stuff bs h.1, same)

unstuff_bytes : (bs : Bytes) → All IsByte (unstuff bs)
unfolding unstuff
unstuff_bytes [] = tt
unstuff_bytes (x ∷ []) = tt
unstuff_bytes (x ∷ y ∷ rest) = (omega arith, unstuff_bytes rest)

length-unstuff-le : (bs : Bytes) → length (unstuff bs) ≤ length bs
unfolding unstuff
length-unstuff-le [] = omega arith
length-unstuff-le (x ∷ []) = omega arith
length-unstuff-le (x ∷ y ∷ rest) = omega (arith, length-unstuff-le rest)

in_place_length : (buf : Bytes) → length (unstuff_in_place buf).0 ≡ length buf
unfolding unstuff_in_place
in_place_length buf = elim (Bool-cases (is_even buf)) [
  | inl e ↦ rw e (
      omega (
        arith,
        length-append (unstuff buf) (drop (length (unstuff buf)) buf),
        length-drop (length (unstuff buf)) buf,
        length-unstuff-le buf,
      ))
  | inr e ↦ rw e
]

in_place_bytes : (buf : Bytes) → All IsByte buf → All IsByte (unstuff_in_place buf).0
unfolding unstuff_in_place
in_place_bytes buf h = elim (Bool-cases (is_even buf)) [
  | inl e ↦ rw e (
      All-append IsByte (unstuff buf) _ (unstuff_bytes buf)
        (All-drop IsByte (length (unstuff buf)) buf h))
  | inr e ↦ rw e h
]

in_place_within : (buf : Bytes) (n : ℕ) → (unstuff_in_place buf).1 ≡ some n → n ≤ length buf
unfolding unstuff_in_place
in_place_within buf n e = elim (Bool-cases (is_even buf)) [
  | inl even ↦
      let found : ◌≡◌ {A = Option ℕ} (some (length (unstuff buf))) (some n) = rw even at e in
      let same : length (unstuff buf) ≡ n = cc in omega (arith, length-unstuff-le buf)
  | inr odd ↦ absurd (let e' = rw odd at e in cc)
]

in_place-stuff :
    (raw : Bytes)
    → All IsByte raw
    → ((unstuff_in_place (stuff raw)).1 ≡ some (length raw))
      × (take (length raw) (unstuff_in_place (stuff raw)).0 ≡ raw)
unfolding unstuff_in_place
in_place-stuff raw h =
    rw (is_even-stuff raw, unstuff-stuff raw h)
      (refl, take-append_length raw (drop (length raw) (stuff raw)) (length raw) refl)

pub sample-IsCodec : IsCodec sample
unfolding sample
sample-IsCodec = record {
  checksum_range = λ bs. unfold kermit in omega arith;
  encode_nonzero = λ raw _. stuff_nonzero raw;
  encode_bytes = λ raw h. stuff_bytes raw h;
  encode_length = λ raw. omega (arith, length-stuff raw);
  decode_length = in_place_length;
  decode_bytes = in_place_bytes;
  decode_within = in_place_within;
  decode_encode = in_place-stuff;
}
