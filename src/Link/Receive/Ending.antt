-- ===== src/Link/Receive/Ending.antt =====
-- `next` of crates/reiny-link/src/link.rs always returns: each round that is followed by another takes
-- bytes out of the receive buffer.
use reiny.Prelude.{
  ℕ, zero, suc, ◌+◌, ◌≤◌, ◌<◌, ◌≡◌, refl, ap, arith, Bool, true, false, Option, none, some, Result,
  ok, err, [], ◌∷◌, Bytes, length, take, ◌==◌, length-take, if◌then◌else◌,
}
use mathlib.Core.Option
use reiny.Wire.Types.{delimiter, WireError}
use reiny.Wire.Frame.{decode_in_place}
use reiny.Link.State.{Env, Link, Frame, Event}
use reiny.Link.Emit.{ensure_started}
use reiny.Link.Buffers.{position, rx_compact, rx_discard}
use reiny.Link.Dispatch.{dispatch}
use reiny.Link.Dispatch.Kept.{Side, dispatch-side}
use reiny.Link.Receive.{
  Round, finished, again, decoded_frame, decode_frame, mark_consumed, after_decode, after_dispatch,
  round_at, next_round, run_on, next_loop, next,
}

abbrev Below : ℕ → Option ℕ → Type 0
Below n none = Unit {0}
Below n (some i) = i < n

Below-suc : (n : ℕ) (o : Option ℕ) → Below n o → Below (suc n) (Option.map suc o)
Below-suc n none h = tt
Below-suc n (some i) h = omega (arith, h)

position-Below : (bs : Bytes) → Below (length bs) (position bs)
unfolding position
position-Below [] = tt
position-Below (b ∷ bs) =
    by_head (b == delimiter) (Below-suc (length bs) (position bs) (position-Below bs))
  where
    by_head :
        (c : Bool)
        → Below (suc (length bs)) (Option.map suc (position bs))
        → Below (suc (length bs)) (if c then some 0 else Option.map suc (position bs))
    by_head true later = omega arith
    by_head false later = later

-- A round that is followed by another leaves less in the buffer.
abbrev Shrinks : ℕ → Round → Type 0
Shrinks n (finished event l) = Unit {0}
Shrinks n (again l) = l.rx_len < n

module _ (env : Env) where
  decoded_frame-rx_len :
      (end : ℕ) (l : Link) (decoded : Bytes) (r : Result WireError ℕ)
      → (decoded_frame env end l decoded r).1.rx_len ≡ l.rx_len
  decoded_frame-rx_len end l decoded (err e) = refl
  decoded_frame-rx_len end l decoded (ok n) = refl

  rx_compact_le : (l : Link) → 0 < l.rx_consumed → 0 < l.rx_len → (rx_compact l).rx_len < l.rx_len
  unfolding rx_compact
  rx_compact_le l some_out some_there =
      let out : (l.rx_consumed == 0) ≡ false = ground arith in rw out (omega arith)

  after_dispatch-Shrinks :
      (n : ℕ) (event : Option Event) (l : Link)
      → 0 < l.rx_consumed
      → 0 < l.rx_len
      → l.rx_len ≤ n
      → Shrinks n (after_dispatch env (event, l))
  after_dispatch-Shrinks n none l a b c = omega (arith, rx_compact_le l a b)
  after_dispatch-Shrinks n (some e) l a b c = tt

  after_decode-Shrinks :
      (n consumed : ℕ) (o : Option Frame) (l : Link)
      → 0 < consumed
      → 0 < l.rx_len
      → l.rx_len ≤ n
      → Shrinks n (after_decode env consumed (o, l))
  unfolding rx_discard
  after_decode-Shrinks n consumed none l a b c = omega arith
  after_decode-Shrinks n consumed (some frame) l a b c =
      let arrived = mark_consumed env consumed l in
      let handed = record frame { generation = arrived.rx_generation } in
      let same = dispatch-side env handed arrived in
      let same_len = ap (λ (k : Side). k.rx_len) same in
      let same_consumed = ap (λ (k : Side). k.rx_consumed) same in
      after_dispatch-Shrinks n (dispatch env handed arrived).0 (dispatch env handed arrived).1
        (omega (arith, same_consumed)) (omega (arith, same_len)) (omega (arith, same_len))

  round-Shrinks :
      (l : Link) (found : Option ℕ)
      → Below (length (take l.rx_len l.rx)) found
      → Shrinks l.rx_len (round_at env found l)
  unfolding rx_discard decode_frame
  round-Shrinks l none h = tt
  round-Shrinks l (some end) h = by_empty (end == 0)
    where
      decoded : Option Frame × Link
      decoded = decode_frame env end l

      same : decoded.1.rx_len ≡ l.rx_len
      same =
          decoded_frame-rx_len end l (decode_in_place env.codec (take end l.rx)).0
            (decode_in_place env.codec (take end l.rx)).1

      by_empty :
          (b : Bool)
          → Shrinks l.rx_len
              (if b then again (rx_discard (end + 1) l) else after_decode env (end + 1) decoded)
      by_empty true = omega (arith, h, length-take l.rx_len l.rx)
      by_empty false =
          after_decode-Shrinks l.rx_len (end + 1) decoded.0 decoded.1 (omega arith)
            (omega (arith, h, same, length-take l.rx_len l.rx)) (omega (arith, same))

  abbrev pub Returns : Option (Option Event × Link) → Type 0
  Returns result = (r : Option Event × Link) × (result ≡ some r)

  run_on-Returns :
      (fuel n : ℕ) (round : Round)
      → Shrinks n round
      → n ≤ fuel
      → ((l : Link) → l.rx_len < fuel → Returns (next_loop env fuel l))
      → Returns (run_on env (next_loop env fuel) round)
  run_on-Returns fuel n (finished event l) h k later = ((event, l), refl)
  run_on-Returns fuel n (again l) h k later = later l (omega (arith, h))

  next_loop-Returns : (fuel : ℕ) (l : Link) → l.rx_len < fuel → Returns (next_loop env fuel l)
  unfolding next_loop next_round
  next_loop-Returns zero l h = absurd (omega arith)
  next_loop-Returns (suc fuel) l h =
      run_on-Returns fuel l.rx_len (next_round env l)
        (round-Shrinks l (position (take l.rx_len l.rx)) (position-Below (take l.rx_len l.rx)))
        (omega arith) (next_loop-Returns fuel)

  -- `next` always returns, whatever stands in the receive buffer and whatever the codecs make of it:
  -- the rounds that it is given are enough.
  pub next_returns : (l : Link) → (r : Option Event × Link) × (next env l ≡ some r)
  unfolding next
  next_returns l =
      let l' = rx_compact (ensure_started env l) in
      next_loop-Returns (l'.rx_len + 1) l' (omega arith)
