-- ===== src/Link/Receive/Clock.antt =====
-- `tick` of crates/reiny-link/src/link.rs: when a connection ends for silence.
use reiny.Prelude.{
  Bytes, ℕ, ◌≡◌, refl, ap, Bool, true, false, not, ◌&&◌, Option, none, some, ltb, leb,
  if◌then◌else◌,
}
use reiny.Wire.Types.{Kind}
use reiny.Link.State.{Env, Link, Event, disconnected_event}
use reiny.Link.Emit.{emit, queue_hello, ensure_started}
use reiny.Link.Emit.Untouched.{
  Kept, kept, emit-Untouched, queue_hello-Untouched, ensure_started-Untouched,
}
use reiny.Link.Handshake.{forget_peer}
use reiny.Link.Receive.{since, tick, tick_connected, tick_disconnected}

-- Longer than `timeout_ms` without a valid frame.
abbrev pub is_silent : Env → ℕ → Link → Bool
is_silent env now_ms l = ltb l.config.timeout_ms (since env now_ms l.last_rx_ms)

-- A tick that ends the connection, or keeps it as it is.
abbrev pub Ticks : Bool → Bool → Option Bytes → Option Event × Link → Type 0
Ticks true connected peer (event, l') =
    (event ≡ some disconnected_event) × (l'.connected ≡ false) × (l'.peer ≡ none)
Ticks false connected peer (event, l') =
    (event ≡ none) × (l'.connected ≡ connected) × (l'.peer ≡ peer)

keeps : (k : Kept) (l : Link) → kept l ≡ k → Ticks false k.connected k.peer (none, l)
keeps k l same = (refl, ap (λ (k : Kept). k.connected) same, ap (λ (k : Kept). k.peer) same)

module _ (env : Env) where
  tick_connected-Ticks :
      (l : Link) → Ticks (is_silent env l.now_ms l) l.connected l.peer (tick_connected env l)
  unfolding tick_connected
  tick_connected-Ticks l =
      by_tests (is_silent env l.now_ms l)
        (leb l.config.ping_interval_ms (since env l.now_ms l.last_tx_ms))
    where
      by_tests :
          (a b : Bool)
          → Ticks a l.connected l.peer (
              if a
              then (some disconnected_event, forget_peer env l)
              else if b
              then (none, (emit env Kind.ping 0 0 0 l).1)
              else (none, l))
      by_tests true b = (refl, refl, refl)
      by_tests false true =
          keeps (kept l) (emit env Kind.ping 0 0 0 l).1 (emit-Untouched env Kind.ping 0 0 0 l)
      by_tests false false = (refl, refl, refl)

  tick_disconnected-Ticks : (l : Link) → Ticks false l.connected l.peer (tick_disconnected env l)
  unfolding tick_disconnected
  tick_disconnected-Ticks l =
      by_test (leb l.config.ping_interval_ms (since env l.now_ms l.last_tx_ms))
    where
      by_test :
          (b : Bool)
          → Ticks false l.connected l.peer
              (if b then (none, (queue_hello env false l).1) else (none, l))
      by_test true = keeps (kept l) (queue_hello env false l).1 (queue_hello-Untouched env false l)
      by_test false = (refl, refl, refl)

  -- A tick reports a lost connection, and forgets the peer, exactly when the link is started and
  -- connected and longer than `timeout_ms` without a valid frame; any other tick reports nothing and
  -- leaves the connection and the peer as they were.
  pub tick_lem :
      (now_ms : ℕ) (l : Link)
      → Ticks
          (l.started && (l.connected && is_silent env now_ms l))
          l.connected
          l.peer
          (tick env now_ms l)
  unfolding tick
  tick_lem now_ms l = by_state l.started l.connected
    where
      ticked : Link
      ticked = record l { now_ms = now_ms }

      by_state :
          (a b : Bool)
          → Ticks (a && (b && is_silent env now_ms l)) l.connected l.peer (
              if not a
              then (none, ensure_started env (record ticked { last_rx_ms = now_ms }))
              else if b
              then tick_connected env ticked
              else tick_disconnected env ticked)
      by_state false b =
          let first = record ticked { last_rx_ms = now_ms } in
          keeps (kept first) (ensure_started env first) (ensure_started-Untouched env first)
      by_state true true = tick_connected-Ticks ticked
      by_state true false = tick_disconnected-Ticks ticked
