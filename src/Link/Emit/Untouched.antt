-- ===== src/Link/Emit/Untouched.antt =====
-- Sending in crates/reiny-link/src/link.rs does not reach the receiving side of a link, its peer or
-- the requests that it waits for.
use reiny.Prelude.{
  ℕ, ◌-◌, ◌≡◌, refl, ap, ◌∙◌, Bool, true, false, Option, Result, ok, err, List, Bytes, length, take,
  drop, ltb, if◌then◌else◌, splice,
}
use reiny.Wire.Types.{Kind, WireError, header_len}
use reiny.Wire.Frame.{encode, encoded_max}
use reiny.Wire.HelloParser.{Hello}
use reiny.Link.State.{Env, Link, Error, LocalType, RemoteType, continue}
use reiny.Link.Emit.{
  no_room, place_frame, push_sealed, checked_hello, written_hello, push_frame, emit, write_hello,
  hello_payload, queue_hello, ensure_started,
}

-- The part that it does not reach.
pub record Kept : Type 0 where
  pub rx : Bytes
  pub rx_len : ℕ
  pub rx_consumed : ℕ
  pub rx_skip : Bool
  pub rx_generation : ℕ
  pub pending : List (Option (ℕ × ℕ))
  pub local : List (Option LocalType)
  pub remote : List (Option RemoteType)
  pub peer : Option Bytes
  pub connected : Bool
  pub bridge : Bool
  pub peer_bridge : Bool
  pub now_ms : ℕ

abbrev pub kept : Link → Kept
kept l = record {
  rx = l.rx;
  rx_len = l.rx_len;
  rx_consumed = l.rx_consumed;
  rx_skip = l.rx_skip;
  rx_generation = l.rx_generation;
  pending = l.pending;
  local = l.local;
  remote = l.remote;
  peer = l.peer;
  connected = l.connected;
  bridge = l.bridge;
  peer_bridge = l.peer_bridge;
  now_ms = l.now_ms;
}

abbrev pub Untouched : Link → Link → Type 0
Untouched l l' = kept l' ≡ kept l

module _ (env : Env) where
  open env use {codec}

  place_frame-Untouched :
      (r : Result WireError (ℕ × Bytes)) (l : Link) → Untouched l (place_frame env r l).1
  place_frame-Untouched (ok out) l = refl
  place_frame-Untouched (err e) l = refl

  push_frame-Untouched : (raw_len : ℕ) (l : Link) → Untouched l (push_frame env raw_len l).1
  unfolding push_frame
  push_frame-Untouched raw_len l =
      by_room (ltb (length l.tx - l.tx_len) (encoded_max codec raw_len))
    where
      by_room :
          (b : Bool)
          → Untouched l
              (if b
                then no_room env l
                else place_frame env
                    (encode codec (take raw_len l.scratch) (drop l.tx_len l.tx))
                    l).1
      by_room true = refl
      by_room false = place_frame-Untouched _ l

  push_sealed-Untouched :
      (r : Result WireError (ℕ × Bytes)) (l : Link) → Untouched l (push_sealed env r l).1
  unfolding push_sealed
  push_sealed-Untouched (ok (raw_len, sealed)) l =
      push_frame-Untouched raw_len (record l { scratch = sealed })
  push_sealed-Untouched (err e) l = refl

  pub emit-Untouched :
      (kind : Kind) (hash seq len : ℕ) (l : Link) → Untouched l (emit env kind hash seq len l).1
  unfolding emit
  emit-Untouched kind hash seq len l = push_sealed-Untouched _ l

  checked_hello-Untouched :
      (len : ℕ) (r : Result WireError Hello) (l : Link) → Untouched l (checked_hello env len r l).1
  checked_hello-Untouched len (ok h) l = refl
  checked_hello-Untouched len (err e) l = refl

  written_hello-Untouched :
      (r : Result WireError ℕ) (l : Link) → Untouched l (written_hello env r l).1
  written_hello-Untouched (ok len) l = checked_hello-Untouched len _ l
  written_hello-Untouched (err e) l = refl

  hello_payload-Untouched : (ack : Bool) (l : Link) → Untouched l (hello_payload env ack l).1
  unfolding hello_payload
  hello_payload-Untouched ack l =
      written_hello-Untouched _
        (record l { scratch = splice l.scratch header_len (write_hello env ack l).1 })

  emit_after-Untouched :
      (r : Result Error ℕ) (l : Link)
      → Untouched l (continue (λ len. emit env Kind.hello 0 0 len) r l).1
  emit_after-Untouched (ok len) l = emit-Untouched Kind.hello 0 0 len l
  emit_after-Untouched (err e) l = refl

  pub queue_hello-Untouched : (ack : Bool) (l : Link) → Untouched l (queue_hello env ack l).1
  unfolding queue_hello
  queue_hello-Untouched ack l = emit_after-Untouched _ _ ∙ hello_payload-Untouched ack l

  pub ensure_started-Untouched : (l : Link) → Untouched l (ensure_started env l)
  unfolding ensure_started
  ensure_started-Untouched l = by_started l.started
    where
      by_started :
          (b : Bool)
          → Untouched l (if b then l else (queue_hello env false (record l { started = true })).1)
      by_started true = refl
      by_started false = queue_hello-Untouched false (record l { started = true })

  pub ensure_started_running : (l : Link) → l.started ≡ true → ensure_started env l ≡ l
  unfolding ensure_started
  ensure_started_running l running =
      ap (λ (b : Bool). if b then l else (queue_hello env false (record l { started = true })).1)
        running
