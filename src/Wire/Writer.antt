-- ===== src/Wire/Writer.antt =====
-- `Writer` of crates/reiny-link/src/wire.rs. A method returns its result and the writer it leaves,
-- also where it fails. Positions stay far below the limit of `usize`.
pub mod Laws
use reiny.Prelude.{
  ℕ, ◌+◌, Result, ok, err, List, [], ◌∷◌, Bytes, length, splice, ltb, if◌then◌else◌, to_le_bytes,
}
use reiny.Wire.Types.{WireError, too_large}

pub record Writer : Type 0 where
  pub out : Bytes
  pub pos : ℕ

abbrev pub Write : Type 0 → Type 0
Write A = Writer → Result WireError A × Writer

abbrev pub continue : {A B : Type 0} → (A → Write B) → Result WireError A → Write B
continue f (ok a) w = f a w
continue f (err e) w = (err e, w)

infixl 5 ◌>>=◌ ◌>>◌
abbrev pub ◌>>=◌ : {A B : Type 0} → Write A → (A → Write B) → Write B
◌>>=◌ m f w = continue f (m w).0 (m w).1

abbrev pub ◌>>◌ : {B : Type 0} → Write (Unit {0}) → Write B → Write B
m >> k = m >>= λ _. k

abbrev pub done : Write (Unit {0})
done w = (ok tt, w)

unfoldable pub write_bytes : Bytes → Write (Unit {0})
write_bytes b w =
    let end = w.pos + length b in
    if ltb (length w.out) end
    then (err too_large, w)
    else (ok tt, record w { out = splice w.out w.pos b; pos = end })

abbrev pub write_u8 : ℕ → Write (Unit {0})
write_u8 v = write_bytes (v ∷ [])

abbrev pub write_u32 : ℕ → Write (Unit {0})
write_u32 v = write_bytes (to_le_bytes 4 v)

abbrev pub write_u64 : ℕ → Write (Unit {0})
write_u64 v = write_bytes (to_le_bytes 8 v)

-- A string goes behind its length, which is one byte.
unfoldable pub write_str : Bytes → Write (Unit {0})
write_str s =
    let body = (write_u8 (length s) >> write_bytes s) in
    λ w. if ltb (length s) 256 then body w else (err too_large, w)
