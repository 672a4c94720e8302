-- ===== src/Wire/Writer/Laws.antt =====
-- What a chain of writes leaves in the buffer.
use reiny.Prelude.{
  ◌+◌, ◌≤◌, ◌≡◌, refl, ap, ◌∙◌, arith, ok, [], ◌∷◌, ◌++◌, append-nil, append_assoc, Bytes, length,
  drop, length-append, length-drop, take-append_length, drop-append_add, drop-drop, lt→ltb, err,
  ◌<◌, le→ltb,
}
use reiny.Wire.Writer.{Writer, Write, ◌>>◌, done, write_bytes, write_u8, write_str}
use reiny.Wire.Types.{too_large}

-- The writer after `front` went into the buffer `out`.
abbrev pub wrote : Bytes → Bytes → Writer
wrote front out = record { out = front ++ drop (length front) out; pos = length front }

length-wrote :
    (front out : Bytes)
    → length front ≤ length out
    → length (front ++ drop (length front) out) ≡ length out
length-wrote front out h =
    omega (arith, length-append front (drop (length front) out), length-drop (length front) out)

-- A write that fits goes behind what was written before, and leaves the rest of the buffer.
pub write_bytes-wrote :
    (b front out : Bytes)
    → length (front ++ b) ≤ length out
    → write_bytes b (wrote front out) ≡ (ok tt, wrote (front ++ b) out)
unfolding write_bytes
write_bytes-wrote b front out h = rw (
  length-wrote front out (omega (arith, length-append front b)),
  le→ltb (length out) (length front + length b) (omega (arith, length-append front b)),
  take-append_length front (drop (length front) out) (length front) refl,
  drop-append_add front (drop (length front) out) (length b),
  drop-drop (length front) (length b) out,
  ← length-append front b,
  append_assoc front b (drop (length (front ++ b)) out),
)

-- A write that does not fit changes nothing.
pub write_bytes_full :
    (b : Bytes) (w : Writer)
    → length w.out < w.pos + length b
    → write_bytes b w ≡ (err too_large, w)
unfolding write_bytes
write_bytes_full b w h = rw (lt→ltb (length w.out) (w.pos + length b) h)

-- `m` succeeds wherever `b` fits, and writes exactly `b`.
abbrev pub Writes : Write (Unit {0}) → Bytes → Type 0
Writes m b =
    (front out : Bytes)
    → length (front ++ b) ≤ length out
    → m (wrote front out) ≡ (ok tt, wrote (front ++ b) out)

pub Writes-bytes : (b : Bytes) → Writes (write_bytes b) b
Writes-bytes b front out h = write_bytes-wrote b front out h

pub Writes-done : Writes done []
Writes-done front out h = rw append-nil

pub Writes-then :
    (m k : Write (Unit {0})) (b c : Bytes) → Writes m b → Writes k c → Writes (m >> k) (b ++ c)
Writes-then m k b c p q front out h =
    let regroup = append_assoc front b c in
    rw
      (p front out
        (omega (arith, length-append front (b ++ c), length-append front b, length-append b c)))
      (q (front ++ b) out (rw regroup h) ∙ ap (λ (w : Bytes). (ok tt, wrote w out)) regroup)

-- The bytes of a string on the wire.
abbrev pub str_bytes : Bytes → Bytes
str_bytes s = length s ∷ s

pub Writes-str : (s : Bytes) → length s < 256 → Writes (write_str s) (str_bytes s)
unfolding write_str
Writes-str s hs front out h = rw (lt→ltb (length s) 256 hs) (
    Writes-then (write_u8 (length s)) (write_bytes s) (length s ∷ []) s (Writes-bytes _)
      (Writes-bytes _) front out h)
