-- ===== src/Link/Buffers/Queue.antt =====
-- The send buffer as a queue of frames: what `drain` and `drain_frame` take from its front.
use reiny.Prelude.{
  ℕ, ◌+◌, ◌-◌, ◌≤◌, ◌<◌, ◌≡◌, refl, sym, ap, ◌∙◌, arith, true, false, some, [], ◌∷◌, ◌++◌,
  append_assoc, Bytes, All, length, take, drop, slice, min, ◌==◌, length-append, length-take,
  length-drop, take-append_length, drop-append_length, drop-take, take-take-min, drop-min, le→ltb,
}
use reiny.Wire.Types.{delimiter}
use reiny.Link.State.{Env, Link}
use reiny.Link.Emit.{ensure_started}
use reiny.Link.Emit.Frames.{queued}
use reiny.Link.Buffers.{position, shift_down, tx_consume, drain, drain_frame, drain_first, drain_to}

-- The first delimiter behind bytes that are none.
pub position-append :
    (bs rest : Bytes) → All (λ b. 0 < b) bs → position (bs ++ (delimiter ∷ rest)) ≡ some (length bs)
unfolding position
position-append [] rest h = refl
position-append (b ∷ bs) rest (h, hs) =
    let other : (b == delimiter) ≡ false = ground arith in rw (other, position-append bs rest hs)

-- `copy_within` moves the bytes from `n` to `len` to the front.
pub take-shift_down :
    (n len : ℕ) (buf : Bytes)
    → n ≤ len
    → len ≤ length buf
    → take (len - n) (shift_down n len buf) ≡ drop n (take len buf)
take-shift_down n len buf h k =
    take-append_length (slice buf n len) (drop (0 + length (slice buf n len)) buf) (len - n)
      (omega (arith, length-take (len - n) (drop n buf), length-drop n buf))
    ∙ sym (drop-take n len buf)

pub queued-tx_consume :
    (n : ℕ) (l : Link)
    → n ≤ l.tx_len
    → l.tx_len ≤ length l.tx
    → queued (tx_consume n l) ≡ drop n (queued l)
unfolding tx_consume
queued-tx_consume n l h k = take-shift_down n l.tx_len l.tx h k

module _ (env : Env) (room : ℕ) (l : Link) (running : l.started ≡ true)
    (within : l.tx_len ≤ length l.tx) where
  started : ensure_started env l ≡ l
  unfolding ensure_started
  started = rw running

  size : length (queued l) ≡ l.tx_len
  size = omega (arith, length-take l.tx_len l.tx)

  -- On a link that is started and holds no more than its send buffer, `drain` hands over the front
  -- of the queue, as much as fits, and keeps the rest.
  pub drain_lem :
      ((drain env room l).0 ≡ take room (queued l))
      × (queued (drain env room l).1 ≡ drop room (queued l))
  unfolding drain
  drain_lem = rw started (
    sym (take-take-min room l.tx_len l.tx),
    queued-tx_consume (min l.tx_len room) l (omega arith) within
        ∙ ap (λ (n : ℕ). drop (min n room) (queued l)) (sym size)
        ∙ drop-min room (queued l),
  )

  -- On a link that is started and holds no more than its send buffer, with a frame at the front of
  -- the queue, `drain_frame` hands that frame over with its delimiter, if `out` has room for it, and
  -- keeps the frames behind it.
  pub drain_frame_lem :
      (encoded rest : Bytes)
      → All (λ b. 0 < b) encoded
      → queued l ≡ encoded ++ (delimiter ∷ rest)
      → length encoded + 1 ≤ room
      → ((drain_frame env room l).0 ≡ some (encoded ++ (delimiter ∷ [])))
        × (queued (drain_frame env room l).1 ≡ rest)
  unfolding drain_frame drain_to
  drain_frame_lem encoded rest nonzero front fits =
      rw (found, le→ltb room (length encoded + 1) fits, drain_to)
        (
          taken ∙ ap some (take-append_length frame rest (length encoded + 1) long),
          queued-tx_consume (length encoded + 1) l inside within
              ∙ ap (drop (length encoded + 1)) split
              ∙ drop-append_length frame rest (length encoded + 1) long,
        )
    where
      frame : Bytes
      frame = encoded ++ (delimiter ∷ [])

      split : queued l ≡ frame ++ rest
      split = front ∙ sym (append_assoc encoded (delimiter ∷ []) rest)

      long : length encoded + 1 ≡ length frame
      long = sym (length-append encoded (delimiter ∷ []))

      inside : length encoded + 1 ≤ l.tx_len
      inside = omega (arith, size, ap length front, length-append encoded (delimiter ∷ rest))

      first : drain_first env room l ≡ drain_to env (length encoded + 1) room l
      first = rw (front, position-append encoded rest nonzero, drain_first)

      found : drain_frame env room l ≡ drain_to env (length encoded + 1) room l
      found = ap (drain_first env room) started ∙ first

      taken :
          some (take (length encoded + 1) l.tx) ≡ some (take (length encoded + 1) (frame ++ rest))
      taken = ap some (
          ap (λ (n : ℕ). take n l.tx)
            (let least : length encoded + 1 ≡ min l.tx_len (length encoded + 1) =
                omega (arith, inside) in
              least)
          ∙ sym (take-take-min (length encoded + 1) l.tx_len l.tx)
          ∙ ap (take (length encoded + 1)) split)
