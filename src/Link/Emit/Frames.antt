-- ===== src/Link/Emit/Frames.antt =====
-- `emit` puts one whole frame behind what is queued to be sent, or nothing.
use reiny.Prelude.{
  ℕ, ◌+◌, ◌-◌, ◌≤◌, ◌<◌, ◌≡◌, refl, sym, ap, ◌∙◌, arith, ok, err, [], ◌∷◌, ◌++◌, append-nil,
  append_assoc, Bytes, length, take, drop, slice, length-append, length-take, length-drop,
  take-append_add, take-append_length, le→ltb, lt→ltb,
}
use reiny.Wire.Types.{Kind, Header, overhead, header_len, delimiter}
use reiny.Wire.Codec.{IsCodec}
use reiny.Wire.Frame.{seal, encoded_max}
use reiny.Wire.Frame.Layout.{frame_bytes, length-frame_bytes, sealed, seal_lem}
use reiny.Wire.Frame.Carried.{encode_lem, wire_bytes}
use reiny.Link.State.{Env, Link, too_large, full, bump32}
use reiny.Link.Emit.{emit, push_frame}

-- What is queued to be sent.
abbrev pub queued : Link → Bytes
queued l = take l.tx_len l.tx

-- The send side of a link: buffers of the sizes that were given, and no more queued than fits.
pub record CanSend (env : Env) (l : Link) : Type 0 where
  pub scratch_size : length l.scratch ≡ env.frame
  pub tx_size : length l.tx ≡ env.tx_size
  pub tx_within : l.tx_len ≤ env.tx_size

-- The link behind a frame that was sent.
abbrev pub pushed : Bytes → Link → Link
pushed encoded l = record l {
  tx =
      take l.tx_len l.tx
      ++ (encoded ++ (delimiter ∷ drop (length encoded + 1) (drop l.tx_len l.tx)));
  tx_len = l.tx_len + (length encoded + 1);
  last_tx_ms = l.now_ms;
}

push_frame_lem :
    (env : Env) (raw : Bytes) (l : Link)
    → IsCodec env.codec
    → take (length raw) l.scratch ≡ raw
    → encoded_max env.codec (length raw) ≤ length l.tx - l.tx_len
    → push_frame env (length raw) l ≡ (ok tt, pushed (env.codec.encode raw) l)
unfolding push_frame
push_frame_lem env raw l laws front room = rw (
  le→ltb (length l.tx - l.tx_len) (encoded_max env.codec (length raw)) room,
  front,
  encode_lem env.codec raw (drop l.tx_len l.tx) laws (omega (arith, length-drop l.tx_len l.tx)),
  push_frame,
)

push_frame_full :
    (env : Env) (raw_len : ℕ) (l : Link)
    → length l.tx - l.tx_len < encoded_max env.codec raw_len
    → push_frame env raw_len l
      ≡ (err full, record l { stats = record (l.stats) { tx_full = bump32 l.stats.tx_full } })
unfolding push_frame
push_frame_full env raw_len l room =
    rw (lt→ltb (length l.tx - l.tx_len) (encoded_max env.codec raw_len) room)

queued-pushed :
    (encoded : Bytes) (l : Link)
    → l.tx_len ≤ length l.tx
    → queued (pushed encoded l) ≡ queued l ++ (encoded ++ (delimiter ∷ []))
queued-pushed encoded l within =
    let front = queued l in
    let frame = encoded ++ (delimiter ∷ []) in
    let rest = drop (length encoded + 1) (drop l.tx_len l.tx) in
    let width : l.tx_len + (length encoded + 1) ≡ length front + (length frame + 0) =
      omega (arith, length-take l.tx_len l.tx, length-append encoded (delimiter ∷ [])) in
    ap (λ (n : ℕ). take n (front ++ (encoded ++ (delimiter ∷ rest)))) width
    ∙ take-append_add front (encoded ++ (delimiter ∷ rest)) (length frame + 0)
    ∙ ap (λ (b : Bytes). front ++ take (length frame + 0) b)
        (sym (append_assoc encoded (delimiter ∷ []) rest))
    ∙ ap (λ (b : Bytes). front ++ b) (take-append_add frame rest 0 ∙ append-nil frame)

module _ (env : Env) (laws : IsCodec env.codec) (kind : Kind) (hash seq n : ℕ) (l : Link)
    (v : CanSend env l) where
  abbrev header : Header
  header = record { kind = kind; hash = hash; seq = seq }

  -- The payload that stands in the scratch buffer.
  abbrev pub staged : Bytes
  staged = slice l.scratch header_len (header_len + n)

  abbrev pub with_frame : Link
  with_frame = record l { scratch = sealed env.codec l.scratch header n }

  width : overhead + n ≤ env.frame → length (frame_bytes env.codec header staged) ≡ overhead + n
  width fits = omega (
    arith,
    v.scratch_size,
    length-frame_bytes env.codec header staged,
    length-take (header_len + n - header_len) (drop header_len l.scratch),
    length-drop header_len l.scratch,
  )

  pub emit_ok :
      overhead + n ≤ env.frame
      → encoded_max env.codec (overhead + n) ≤ env.tx_size - l.tx_len
      → emit env kind hash seq n l
        ≡ (ok tt, pushed (env.codec.encode (frame_bytes env.codec header staged)) with_frame)
  unfolding emit
  emit_ok fits room =
      rw (seal_lem env.codec l.scratch header n (omega (arith, v.scratch_size)), emit)
        (ap (λ (k : ℕ). push_frame env k with_frame) (sym (width fits))
          ∙ push_frame_lem env (frame_bytes env.codec header staged) with_frame laws
              (take-append_length (frame_bytes env.codec header staged)
                (drop (overhead + n) l.scratch) _ refl)
              (rw (width fits) (omega (arith, v.tx_size))))

  -- For codecs that keep their laws and a send side inside its buffers, a frame that fits `FRAME`
  -- and the room that is left goes behind what is queued, whole, encoded and delimited, and nothing
  -- else of the queue changes.
  pub emit-queued :
      overhead + n ≤ env.frame
      → encoded_max env.codec (overhead + n) ≤ env.tx_size - l.tx_len
      → ((emit env kind hash seq n l).0 ≡ ok tt)
        × (queued (emit env kind hash seq n l).1 ≡ queued l ++ wire_bytes env.codec header staged)
  emit-queued fits room = rw (emit_ok fits room) (
    refl,
    queued-pushed (env.codec.encode (frame_bytes env.codec header staged)) with_frame
        (omega (arith, v.tx_size, v.tx_within)),
  )

  -- For codecs that keep their laws and a send side inside its buffers, a frame that fits `FRAME`
  -- but not the room that is left is refused as full and counted, and the queue stays as it was.
  pub emit_full :
      overhead + n ≤ env.frame
      → env.tx_size - l.tx_len < encoded_max env.codec (overhead + n)
      → emit env kind hash seq n l ≡ (
        err full,
        record with_frame { stats = record (l.stats) { tx_full = bump32 l.stats.tx_full } },
      )
  unfolding emit
  emit_full fits room =
      rw (seal_lem env.codec l.scratch header n (omega (arith, v.scratch_size)), emit)
        (push_frame_full env (overhead + n) with_frame (omega (arith, v.tx_size)))

  -- One that does not fit `FRAME` leaves the link as it was.
  pub emit_too_large : env.frame < overhead + n → emit env kind hash seq n l ≡ (err too_large, l)
  unfolding emit seal
  emit_too_large h =
      rw (lt→ltb (length l.scratch) (overhead + n) (omega (arith, v.scratch_size)), emit, seal)
