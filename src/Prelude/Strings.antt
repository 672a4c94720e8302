-- ===== src/Prelude/Strings.antt =====
-- What the code uses of the language's strings, which are UTF-8 bytes: `split`, `strip_prefix`, the
-- ASCII classes and white space.
use Prim.Native.Nat.{ℕ, zero, suc}
use mathlib.Core.Path.{◌≡◌}
use native.Mathlib.Omega.{arith}
use mathlib.Core.Bool.{Bool, true, false, ◌&&◌, ◌||◌}
use mathlib.Core.Option.{Option, none, some}
use mathlib.Core.List.{List, [], ◌∷◌, ◌++◌}
use reiny.Prelude.Tests.{if◌then◌else◌, leb, ◌==◌, is_some}
use reiny.Prelude.Words.{Bytes}
use reiny.Prelude.Lists.{length}

abbrev pub between : ℕ → ℕ → ℕ → Bool
between lo hi b = leb lo b && leb b hi

abbrev pub is_empty : Bytes → Bool
is_empty [] = true
is_empty (b ∷ bs) = false

unfoldable pub is_ascii_digit : ℕ → Bool
is_ascii_digit b = between b'0' b'9' b

unfoldable pub is_ascii_alphanumeric : ℕ → Bool
unfolding is_ascii_digit
is_ascii_alphanumeric b = between b'A' b'Z' b || between b'a' b'z' b || is_ascii_digit b

abbrev push_front : ℕ → List Bytes → List Bytes
push_front b [] = (b ∷ []) ∷ []
push_front b (part ∷ parts) = (b ∷ part) ∷ parts

-- `s.split(sep)`: the parts between separators, one more than there are separators.
unfoldable pub split : ℕ → Bytes → List Bytes
split sep [] = [] ∷ []
split sep (b ∷ bs) = if b == sep then [] ∷ split sep bs else push_front b (split sep bs)

-- `value.contains(c)` for a character of one byte.
abbrev pub contains_byte : ℕ → Bytes → Bool
contains_byte c [] = false
contains_byte c (b ∷ bs) = b == c || contains_byte c bs

-- `value.strip_prefix(prefix)`
unfoldable pub strip_prefix : Bytes → Bytes → Option Bytes
strip_prefix [] value = some value
strip_prefix (p ∷ ps) [] = none
strip_prefix (p ∷ ps) (b ∷ bs) = if p == b then strip_prefix ps bs else none

-- What follows a white-space character of one byte, of two and of three at the front.
abbrev space_one : Bytes → Option Bytes
space_one [] = none
space_one (a ∷ bs) = if between 0x9 0xd a || a == 0x20 then some bs else none

abbrev space_two : Bytes → Option Bytes
space_two (a ∷ b ∷ bs) = if a == 0xc2 && (b == 0x85 || b == 0xa0) then some bs else none
space_two _ = none

abbrev is_wide_space : ℕ → ℕ → ℕ → Bool
is_wide_space a b c =
    (a == 0xe1 && b == 0x9a && c == 0x80)
    || (a == 0xe2 && b == 0x80 && (between 0x80 0x8a c || c == 0xa8 || c == 0xa9 || c == 0xaf))
    || (a == 0xe2 && b == 0x81 && c == 0x9f)
    || (a == 0xe3 && b == 0x80 && c == 0x80)

abbrev space_three : Bytes → Option Bytes
space_three (a ∷ b ∷ c ∷ bs) = if is_wide_space a b c then some bs else none
space_three _ = none

abbrev or_else : Option Bytes → Option Bytes → Option Bytes
or_else none other = other
or_else (some found) other = some found

-- `char::is_whitespace` on the first character, with the rest of the string.
unfoldable pub after_space : Bytes → Option Bytes
after_space bs = or_else (space_one bs) (or_else (space_two bs) (space_three bs))

-- `value.contains(char::is_whitespace)`. No white-space character's bytes stand inside another
-- character's.
unfoldable pub has_space : Bytes → Bool
unfolding after_space
has_space [] = false
has_space (b ∷ bs) = is_some (after_space (b ∷ bs)) || has_space bs

-- `value.trim().is_empty()`, in at most as many rounds as there are bytes.
abbrev pub blank_loop : ℕ → Bytes → Bool
unfolding after_space
blank_loop rounds [] = true
blank_loop zero (b ∷ bs) = false
blank_loop (suc rounds) (b ∷ bs) = elim (after_space (b ∷ bs)) [
  | none ↦ false
  | some rest ↦ blank_loop rounds rest
]

unfoldable pub is_blank : Bytes → Bool
is_blank bs = blank_loop (length bs) bs

-- A prefix is cut off where the string starts with it.
pub strip_prefix-eq-some :
    (prefix value rest : Bytes) → strip_prefix prefix value ≡ some rest → value ≡ prefix ++ rest
unfolding strip_prefix
strip_prefix-eq-some [] value rest h = cc
strip_prefix-eq-some (p ∷ ps) [] rest h = cc
strip_prefix-eq-some (p ∷ ps) (b ∷ bs) rest h = ground (arith, strip_prefix-eq-some ps bs rest)
