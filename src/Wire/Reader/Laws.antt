-- ===== src/Wire/Reader/Laws.antt =====
-- What a chain of reads takes from the buffer.
use reiny.Prelude.{
  ℕ, ◌+◌, ◌-◌, ◌≤◌, ◌≡◌, refl, sym, ap, ◌∙◌, arith, some, [], ◌∷◌, ◌++◌, append_assoc, Bytes,
  length, drop, length-append, length-drop, take-append_length, drop-append_length, drop-drop,
  le→ltb, to_le_bytes, from_le_bytes-to_le_bytes, IsU32, IsU64,
}
use reiny.Wire.Reader.{
  Reader, Read, ◌>>=◌, give, read_bytes, read_u8, read_u32, read_u64, read_str, or_give_up,
}
use reiny.Wire.Text.{from_utf8}
use reiny.Wire.Writer.Laws.{str_bytes}

-- `r` stands in front of `xs`, inside its buffer.
abbrev pub Ahead : Reader → Bytes → Type 0
Ahead r xs = (drop r.pos r.buf ≡ xs) × (r.pos ≤ length r.buf)

abbrev pub skip : ℕ → Reader → Reader
skip n r = record r { pos = r.pos + n }

-- Wherever `b` is next, `m` reads exactly `b` and returns `a`.
abbrev pub Reads : {A : Type 0} → Read A → Bytes → A → Type 0
Reads m b a = (r : Reader) (rest : Bytes) → Ahead r (b ++ rest) → m r ≡ some (a, skip (length b) r)

Ahead-length : (r : Reader) (xs : Bytes) → Ahead r xs → length r.buf ≡ r.pos + length xs
Ahead-length r xs h = omega (arith, length-drop r.pos r.buf, ap length (h.0))

pub Ahead-skip :
    (r : Reader) (b rest : Bytes) → Ahead r (b ++ rest) → Ahead (skip (length b) r) rest
Ahead-skip r b rest h = (
  sym (drop-drop r.pos (length b) r.buf)
      ∙ ap (drop (length b)) (h.0)
      ∙ drop-append_length b rest (length b) refl,
  omega (arith, Ahead-length r (b ++ rest) h, length-append b rest),
)

pub Reads-bytes : (b : Bytes) (n : ℕ) → n ≡ length b → Reads (read_bytes n) b b
unfolding read_bytes
Reads-bytes b n e r rest h =
    let whole : length r.buf ≡ r.pos + (length b + length rest) =
      Ahead-length r (b ++ rest) h ∙ ap (λ (k : ℕ). r.pos + k) (length-append b rest) in
    let count : r.pos + n - r.pos ≡ length b = omega arith in
    rw (
      le→ltb (length r.buf) (r.pos + n) (omega arith),
      count,
      h.0,
      take-append_length b rest (length b) refl,
      e,
    )

pub Reads-bind :
    {A B : Type 0} (m : Read A) (k : A → Read B) (b c : Bytes) (a : A) (x : B)
    → Reads m b a
    → Reads (k a) c x
    → Reads (m >>= k) (b ++ c) x
Reads-bind m k b c a x p q r rest h =
    let h' : Ahead r (b ++ (c ++ rest)) = (h.0 ∙ append_assoc b c rest, h.1) in
    rw (p r (c ++ rest) h') (
      q (skip (length b) r) rest (Ahead-skip r b (c ++ rest) h')
      ∙ ap (λ (n : ℕ). some (x, record r { pos = n })) (omega (arith, length-append b c)))

pub Reads-give : {A : Type 0} (a : A) → Reads (give a) [] a
Reads-give a r rest h = ap (λ (n : ℕ). some (a, record r { pos = n })) (omega arith)

-- Reading by `f` what `n` bytes say.
pub Reads-number :
    (b : Bytes) (n : ℕ) (f : Bytes → ℕ)
    → n ≡ length b
    → Reads (read_bytes n >>= λ bs. give (f bs)) b (f b)
Reads-number b n f e r rest h = rw (Reads-bytes b n e r rest h)

pub Reads-u8 : (v : ℕ) → Reads read_u8 (v ∷ []) v
Reads-u8 v r rest h = rw (Reads-bytes (v ∷ []) 1 refl r rest h)

pub Reads-u32 : (v : ℕ) → IsU32 v → Reads read_u32 (to_le_bytes 4 v) v
Reads-u32 v range r rest h =
    rw (Reads-bytes (to_le_bytes 4 v) 4 refl r rest h)
      (ap (λ (w : ℕ). some (w, skip 4 r)) (from_le_bytes-to_le_bytes 4 v range))

pub Reads-u64 : (v : ℕ) → IsU64 v → Reads read_u64 (to_le_bytes 8 v) v
Reads-u64 v range r rest h =
    rw (Reads-bytes (to_le_bytes 8 v) 8 refl r rest h)
      (ap (λ (w : ℕ). some (w, skip 8 r)) (from_le_bytes-to_le_bytes 8 v range))

pub Reads-str : (s : Bytes) → from_utf8 s ≡ some s → Reads read_str (str_bytes s) s
unfolding read_str
Reads-str s valid =
    Reads-bind read_u8 (λ len. read_bytes len >>= λ b. or_give_up (from_utf8 b)) (length s ∷ []) s
      (length s) s (Reads-u8 (length s)) body
  where
    body : Reads (read_bytes (length s) >>= λ b. or_give_up (from_utf8 b)) s s
    body r rest h = rw (Reads-bytes s (length s) refl r rest h, valid)

-- A read that ends by building its result.
pub Reads-map :
    {A B : Type 0} (m : Read A) (f : A → B) (b : Bytes) (a : A)
    → Reads m b a
    → Reads (m >>= λ x. give (f x)) b (f a)
Reads-map m f b a p r rest h = rw (p r rest h)
