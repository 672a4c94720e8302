-- ===== src/Link/Receive/Delivery.antt =====
-- A frame in the receive buffer, through `next` of crates/reiny-link/src/link.rs.
use reiny.Prelude.{
  ℕ, zero, suc, ◌+◌, ◌^◌, ◌≤◌, ◌<◌, ◌≡◌, refl, sym, ap, ◌∙◌, arith, true, false, Option, some, [],
  ◌∷◌, ◌++◌, append_assoc, Bytes, IsByte, All, length, take, drop, slice, min, ◌==◌, length-append,
  length-take, take-append_length, take-take-min, drop-take, ==_refl, le→ltb, lt→ltb, if◌then◌else◌,
}
use reiny.Wire.Types.{Header, IsHeader, overhead, header_len, delimiter}
use reiny.Wire.Codec.{IsCodec}
use reiny.Wire.Frame.{decode_in_place}
use reiny.Wire.Frame.Layout.{frame_bytes, frame_bytes-IsByte, length-frame_bytes}
use reiny.Wire.Frame.RoundTrip.{parse-frame_bytes}
use reiny.Wire.Frame.Carried.{wire_bytes, decode-encode}
use reiny.Link.State.{Env, Link, Frame, Event}
use reiny.Link.Read.{payload}
use reiny.Link.Emit.{ensure_started}
use reiny.Link.Emit.Untouched.{ensure_started_running}
use reiny.Link.Buffers.{rx_compact}
use reiny.Link.Buffers.Accepting.{compact_none}
use reiny.Link.Buffers.Queue.{position-append}
use reiny.Link.Buffers.Feeding.{received}
use reiny.Link.Dispatch.{dispatch}
use reiny.Link.Dispatch.Kept.{Side, dispatch-side}
use reiny.Link.Receive.{
  read_frame, decoded_frame, decode_frame, mark_consumed, after_dispatch, next_round, run_on,
  next_loop, next,
}

take_front : (n : ℕ) (xs ys : Bytes) → n ≤ length xs → take n (xs ++ ys) ≡ take n xs
take_front zero xs ys h = refl
take_front (suc n) [] ys h = absurd (omega arith)
take_front (suc n) (x ∷ xs) ys h = ap (◌∷◌ x) (take_front n xs ys (omega arith))

slice_front : (n from to : ℕ) (xs : Bytes) → to ≤ n → slice xs from to ≡ slice (take n xs) from to
slice_front n from to xs h =
    sym (drop-take from to xs)
    ∙ ap (λ (k : ℕ). drop from (take k xs)) (let least : to ≡ min n to = omega arith in least)
    ∙ ap (drop from) (sym (take-take-min to n xs))
    ∙ drop-take from to (take n xs)

-- The handle of a frame with header `h`.
abbrev pub handle : Header → ℕ → ℕ → Frame
handle h len generation = record {
  kind = h.kind;
  hash = h.hash;
  seq = h.seq;
  len = len;
  generation = generation;
}

module _ (env : Env) (laws : IsCodec env.codec) (h : Header) (range : IsHeader h) (sent : Bytes)
    (bytes : All IsByte sent) (fits : overhead + length sent ≤ env.frame)
    (short_ : length sent < 2 ^ 16) where
  abbrev encoded : Bytes
  encoded = env.codec.encode (frame_bytes env.codec h sent)

  read_frame_lem :
      (rx : Bytes)
      → take (overhead + length sent) rx ≡ frame_bytes env.codec h sent
      → read_frame env (overhead + length sent) rx ≡ some (handle h (length sent) 0)
  unfolding read_frame
  read_frame_lem rx front =
      rw
        (
          le→ltb env.frame (overhead + length sent) fits,
          front,
          parse-frame_bytes env.codec laws h sent range,
          lt→ltb (length sent) (2 ^ 16) short_,
        )
        refl

  -- The encoded frame is not empty.
  encoded-length : overhead + length sent ≤ length encoded
  encoded-length =
      let (n, raw) =
        laws.decode_encode (frame_bytes env.codec h sent)
          (frame_bytes-IsByte env.codec h sent range bytes) in
      omega (
        arith,
        laws.decode_within encoded (length (frame_bytes env.codec h sent)) n,
        length-frame_bytes env.codec h sent,
      )

  module _ (l : Link) (rest : Bytes) (within : l.rx_len ≤ length l.rx)
      (there : received l ≡ wire_bytes env.codec h sent ++ rest) where
    split : received l ≡ encoded ++ (delimiter ∷ rest)
    split = there ∙ append_assoc encoded (delimiter ∷ []) rest

    front : take (length encoded) l.rx ≡ encoded
    front =
        ap (λ (n : ℕ). take n l.rx) least
        ∙ sym (take-take-min (length encoded) l.rx_len l.rx)
        ∙ ap (take (length encoded)) split
        ∙ take-append_length encoded (delimiter ∷ rest) (length encoded) refl
      where
        least : length encoded ≡ min l.rx_len (length encoded)
        least = omega (
          arith,
          length-take l.rx_len l.rx,
          ap length split,
          length-append encoded (delimiter ∷ rest),
        )

    abbrev decoded : Bytes
    decoded = (decode_in_place env.codec encoded).0

    -- The receive buffer behind the decoding.
    abbrev decoded_rx : Bytes
    decoded_rx = decoded ++ drop (length encoded) l.rx

    undone :
        (take (overhead + length sent) decoded ≡ frame_bytes env.codec h sent)
        × (overhead + length sent ≤ length decoded)
    unfolding decode_in_place
    undone =
        let e = decode-encode env.codec h sent laws range bytes in
        (e.1, omega (arith, laws.decode_length encoded, encoded-length))

    front_decoded : take (overhead + length sent) decoded_rx ≡ frame_bytes env.codec h sent
    front_decoded =
        take_front (overhead + length sent) decoded (drop (length encoded) l.rx) undone.1 ∙ undone.0

    decode_frame_lem :
        decode_frame env (length encoded) l
        ≡ (some (handle h (length sent) 0), record l { rx = decoded_rx })
    unfolding decode_frame
    decode_frame_lem =
        ap
          (λ (b : Bytes).
            decoded_frame env (length encoded) l (decode_in_place env.codec b).0
              (decode_in_place env.codec b).1)
          front
        ∙ ap (decoded_frame env (length encoded) l decoded)
            (decode-encode env.codec h sent laws range bytes).0
        ∙ ap (λ (f : Option Frame). (f, record l { rx = decoded_rx }))
            (read_frame_lem decoded_rx front_decoded)

    -- The link that `next` hands to `dispatch`.
    abbrev pub arrived : Link
    arrived = mark_consumed env (length encoded + 1) (record l { rx = decoded_rx })

    abbrev pub arrived_frame : Frame
    arrived_frame = handle h (length sent) arrived.rx_generation

    payload-arrived : payload arrived arrived_frame ≡ sent
    unfolding payload
    payload-arrived = rw (==_refl arrived.rx_generation) (
        slice_front (overhead + length sent) header_len (header_len + length sent) decoded_rx
          (omega arith)
        ∙ ap (λ (b : Bytes). slice b header_len (header_len + length sent)) front_decoded
        ∙ take-append_length sent _ _ (omega arith))

    next_round_lem : next_round env l ≡ after_dispatch env (dispatch env arrived_frame arrived)
    unfolding next_round
    next_round_lem =
        let some_there : (length encoded == 0) ≡ false = ground (arith, encoded-length) in
        rw (split, position-append encoded rest nonzero, some_there, decode_frame_lem, next_round)
          refl
      where
        nonzero : All (λ b. 0 < b) encoded
        nonzero =
            laws.encode_nonzero (frame_bytes env.codec h sent)
              (frame_bytes-IsByte env.codec h sent range bytes)

    payload-dispatched : payload (dispatch env arrived_frame arrived).1 arrived_frame ≡ sent
    unfolding payload
    payload-dispatched =
        ap
          (λ (k : Side).
            if arrived_frame.generation == k.rx_generation
            then slice k.rx header_len (header_len + length sent)
            else [])
          (dispatch-side env arrived_frame arrived)
        ∙ payload-arrived

    -- For codecs that keep their laws, a header in range and a payload of bytes that fits `FRAME`
    -- and a `u16`, on a link that is started and has handed out no frame, with that frame whole at
    -- the front of what was received: the frame goes to `dispatch` with its header, an event that
    -- `dispatch` makes of it is what `next` returns, and the payload that is then read through the
    -- frame's handle is the one that was sent.
    pub next_delivers :
        (event : Event)
        → l.started ≡ true
        → l.rx_consumed ≡ 0
        → (dispatch env arrived_frame arrived).0 ≡ some event
        → (next env l ≡ some (some event, (dispatch env arrived_frame arrived).1))
          × (payload (dispatch env arrived_frame arrived).1 arrived_frame ≡ sent)
    unfolding next next_loop
    next_delivers event running none_out e = (
      ap (λ m. next_loop env (m.rx_len + 1) m) quiet
          ∙ one_round l.rx_len
          ∙ ap (λ r. run_on env (next_loop env l.rx_len) r)
              (next_round_lem
                ∙ ap (λ o. after_dispatch env (o, (dispatch env arrived_frame arrived).1)) e),
      payload-dispatched,
    )
      where
        quiet : rx_compact (ensure_started env l) ≡ l
        quiet = ap rx_compact (ensure_started_running env l running) ∙ compact_none l none_out

        one_round :
            (n : ℕ) → next_loop env (n + 1) l ≡ run_on env (next_loop env n) (next_round env l)
        one_round n =
            ap (λ k. next_loop env k l) (let next_n : n + 1 ≡ suc n = omega arith in next_n)
