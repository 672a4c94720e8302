-- ===== src/Wire/Reader.antt =====
-- `Reader` of crates/reiny-link/src/wire.rs. A method returns its result and the reader it leaves;
-- nothing is read from a reader that has failed. Positions stay far below the limit of `usize`.
pub mod Laws
use reiny.Prelude.{
  ℕ, ◌+◌, ◌≤◌, Option, none, some, List, [], ◌∷◌, Bytes, length, slice, ltb, if◌then◌else◌,
  from_le_bytes,
}
use reiny.Wire.Text.{from_utf8}

pub record Reader : Type 0 where
  pub buf : Bytes
  pub pos : ℕ

abbrev pub Read : Type 0 → Type 0
Read A = Reader → Option (A × Reader)

abbrev continue : {A B : Type 0} → (A → Read B) → Option (A × Reader) → Option (B × Reader)
continue f none = none
continue f (some (a, r)) = f a r

infixl 5 ◌>>=◌ ◌>>◌
abbrev pub ◌>>=◌ : {A B : Type 0} → Read A → (A → Read B) → Read B
◌>>=◌ m f r = continue f (m r)

abbrev pub ◌>>◌ : {B : Type 0} → Read (Unit {0}) → Read B → Read B
m >> k = m >>= λ _. k

abbrev pub give : {A : Type 0} → A → Read A
give a r = some (a, r)

abbrev pub give_up : {A : Type 0} → Read A
give_up r = none

-- `self.buf.get(self.pos..end)?` is absent past the end of the buffer.
unfoldable pub read_bytes : ℕ → Read Bytes
read_bytes n r =
    let end = r.pos + n in
    if ltb (length r.buf) end then none else some (slice r.buf r.pos end, record r { pos = end })

-- `b[0]`, of one byte that was read.
abbrev first_byte : Bytes → ℕ
first_byte [] = 0
first_byte (b ∷ bs) = b

abbrev pub read_u8 : Read ℕ
read_u8 = read_bytes 1 >>= λ b. give (first_byte b)

abbrev pub read_u32 : Read ℕ
read_u32 = read_bytes 4 >>= λ b. give (from_le_bytes b)

abbrev pub read_u64 : Read ℕ
read_u64 = read_bytes 8 >>= λ b. give (from_le_bytes b)

abbrev pub or_give_up : {A : Type 0} → Option A → Read A
or_give_up none r = none
or_give_up (some a) r = some (a, r)

unfoldable pub read_str : Read Bytes
unfolding read_bytes
read_str = do len ← read_u8; b ← read_bytes len; or_give_up (from_utf8 b)
