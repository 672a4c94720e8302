-- ===== src/Link/Receive.antt =====
-- `decode_frame`, `next` and `tick` of crates/reiny-link/src/link.rs.
pub mod Delivery
pub mod Ending
pub mod Clock
use reiny.Prelude.{
  ℕ, zero, suc, ◌+◌, ◌-◌, ◌%◌, ◌^◌, false, not, Option, none, some, Result, ok, err, Bytes, ◌++◌,
  length, take, drop, ltb, leb, ◌==◌, if◌then◌else◌,
}
use reiny.Wire.Types.{Kind, WireError}
use reiny.Wire.Frame.{decode_in_place, parse}
use reiny.Link.State.{Env, Link, Frame, Event, disconnected_event, bump16}
use reiny.Link.Emit.{emit, queue_hello, ensure_started}
use reiny.Link.Buffers.{position, rx_discard, rx_compact}
use reiny.Link.Handshake.{forget_peer, count_bad_frame}
use reiny.Link.Dispatch.{dispatch}

-- What one round of the loop of `next` comes to: a return, or another round.
pub data Round : Type 0 where
  finished : Option Event → Link → Round
  again : Link → Round

module _ (env : Env) where
  open env use {codec, frame}

  -- The header and the length of the payload, if the frame is one; the length is a `u16`.
  unfoldable pub read_frame : ℕ → Bytes → Option Frame
  read_frame raw_len rx = if ltb frame raw_len then none else elim (parse codec (take raw_len rx)) [
    | err _ ↦ none
    | ok (header, payload) ↦
        if ltb (length payload) (2 ^ 16)
        then some (record {
          kind = header.kind;
          hash = header.hash;
          seq = header.seq;
          len = length payload;
          generation = 0;
        })
        else none
  ]

  -- With what `decode_in_place` makes of the bytes in front of the delimiter.
  abbrev pub decoded_frame : ℕ → Link → Bytes → Result WireError ℕ → Option Frame × Link
  decoded_frame end l decoded (err _) = (none, record l { rx = decoded ++ drop end l.rx })
  decoded_frame end l decoded (ok raw_len) =
      (read_frame raw_len (decoded ++ drop end l.rx), record l { rx = decoded ++ drop end l.rx })

  unfoldable pub decode_frame : ℕ → Link → Option Frame × Link
  unfolding read_frame
  decode_frame end l =
      let decoded = decode_in_place codec (take end l.rx) in decoded_frame end l decoded.0 decoded.1

  -- A valid frame is consumed on the next call, if it is returned.
  abbrev pub mark_consumed : ℕ → Link → Link
  mark_consumed consumed l = record l {
    rx_consumed = consumed;
    rx_generation = bump16 l.rx_generation;
    last_rx_ms = l.now_ms;
  }

  abbrev pub after_dispatch : Option Event × Link → Round
  after_dispatch r = elim r.0 [
    | some event ↦ finished (some event) r.1
    | none ↦ again (rx_compact r.1)
  ]

  abbrev pub after_decode : ℕ → Option Frame × Link → Round
  after_decode consumed r = elim r.0 [
    | none ↦ again (rx_discard consumed (count_bad_frame env r.1))
    | some frame ↦
        let l = mark_consumed consumed r.1 in
        after_dispatch (dispatch env (record frame { generation = l.rx_generation }) l)
  ]

  -- With the delimiter that was found.
  abbrev pub round_at : Option ℕ → Link → Round
  unfolding decode_frame
  round_at none l = finished none l
  round_at (some end) l =
      if end == 0
      then again (rx_discard (end + 1) l)
      else after_decode (end + 1) (decode_frame end l)

  unfoldable pub next_round : Link → Round
  unfolding decode_frame
  next_round l = round_at (position (take l.rx_len l.rx)) l

  -- The loop goes on, or returns.
  abbrev pub run_on : (Link → Option (Option Event × Link)) → Round → Option (Option Event × Link)
  run_on more (finished event l) = some (event, l)
  run_on more (again l) = more l

  -- `none` means that the rounds ran out.
  unfoldable pub next_loop : ℕ → Link → Option (Option Event × Link)
  next_loop zero l = none
  next_loop (suc fuel) l = run_on (next_loop fuel) (next_round l)

  -- A round that is followed by another takes a byte at least out of the receive buffer.
  unfoldable pub next : Link → Option (Option Event × Link)
  unfolding next_loop next_round
  next l = let l' = rx_compact (ensure_started env l) in next_loop (l'.rx_len + 1) l'

  -- `a.wrapping_sub(b)` on `u32`.
  abbrev pub since : ℕ → ℕ → ℕ
  since now then_ms = (now + 2 ^ 32 - then_ms) % 2 ^ 32

  pub tick_connected : Link → Option Event × Link
  tick_connected l =
      if ltb l.config.timeout_ms (since l.now_ms l.last_rx_ms)
      then (some disconnected_event, forget_peer env l)
      else if leb l.config.ping_interval_ms (since l.now_ms l.last_tx_ms)
      then (none, (emit env Kind.ping 0 0 0 l).1)
      else (none, l)

  pub tick_disconnected : Link → Option Event × Link
  tick_disconnected l =
      if leb l.config.ping_interval_ms (since l.now_ms l.last_tx_ms)
      then (none, (queue_hello env false l).1)
      else (none, l)

  unfoldable pub tick : ℕ → Link → Option Event × Link
  unfolding tick_connected tick_disconnected
  tick now_ms l =
      let l' = record l { now_ms = now_ms } in
      if not l.started
      then (none, ensure_started env (record l' { last_rx_ms = now_ms }))
      else if l.connected
      then tick_connected l'
      else tick_disconnected l'
