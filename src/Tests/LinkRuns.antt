-- ===== src/Tests/LinkRuns.antt =====
-- The theorems about a link at concrete links.
use reiny.Prelude.{
  suc, ap, ◌≢◌, bytes_eq, ℕ, ◌+◌, ◌≤◌, ◌<◌, ◌^◌, ◌≡◌, refl, arith, Bool, true, false, Option, none,
  some, ok, err, [], ◌∷◌, ◌++◌, Bytes, All, IsByte, length, replicate, codes, if◌then◌else◌, slice,
}
use reiny.Wire.Types.{Kind, Header, IsHeader, overhead, header_len}
use reiny.Wire.HelloWriter.{hello_write}
use reiny.Wire.Writer.{write_bytes, write_str}
use reiny.Wire.Frame.{seal, encode}
use reiny.Wire.HelloWriter.Laws.{hello_bytes}
use reiny.Wire.HelloParser.{hello_parse, hello_entries}
use reiny.Wire.Text.{from_utf8, valid_namespace, valid_type}
use reiny.Wire.EntryReader.{sources_iter, read_entry}
use reiny.Wire.Reader.{read_bytes, read_str}
use reiny.Wire.Hash.{endpoint_hash}
use reiny.Wire.Frame.Carried.{wire_bytes}
use reiny.Link.State.{id_buf, Link, Frame, Event, reply_event, error_event, full, bump32}
use reiny.Link.Emit.{emit, emit_request, queue_hello}
use reiny.Link.Emit.Frames.{CanSend, queued, with_frame, emit-queued, emit_full}
use reiny.Link.Emit.Untouched.{Untouched, queue_hello-Untouched}
use reiny.Link.Buffers.{rx_compact, feed, drain_frame}
use reiny.Link.Buffers.Queue.{drain_frame_lem}
use reiny.Link.Buffers.Feeding.{received, feed_returns}
use reiny.Link.Buffers.Accepting.{feed_appends}
use reiny.Link.Pending.{IsOnce, waiting}
use reiny.Link.Pending.Asked.{Asked, emit_request-Asked, emit_request-IsOnce}
use reiny.Link.Pending.Requested.{Requested, request_raw-Requested}
use reiny.Link.Send.{request_raw}
use reiny.Link.Pending.Answered.{dispatch_answer-waiting, answered_once}
use reiny.Link.Dispatch.{dispatch_answer, dispatch}
use reiny.Link.Dispatch.Kept.{side, dispatch-side}
use reiny.Link.Handshake.{validate_hello, on_hello}
use reiny.Tests.WireRuns.{temperature, node}
use mathlib.Core.List.{flat_map}
use reiny.Link.Read.{payload}
use reiny.Link.Read.Stale.{rx_compact-stale}
use reiny.Link.Receive.{next, tick}
use reiny.Link.Receive.Ending.{next_returns}
use reiny.Link.Receive.Clock.{Ticks, tick_lem}
use reiny.Link.Receive.Delivery.{arrived, next_delivers}
use reiny.Tests.Samples.{sample, sample-IsCodec}
use reiny.Tests.Links.{small, fresh, waiting_link, answer}

at_most_one : (b : Bool) → (if b then 1 else 0) + 0 ≤ 1
at_most_one true = omega arith
at_most_one false = omega arith

waiting_link-IsOnce : IsOnce waiting_link
waiting_link-IsOnce h s = at_most_one _

fresh-CanSend : CanSend small fresh
fresh-CanSend = record { scratch_size = refl; tx_size = refl; tx_within = omega arith }

answered_once_example :
    ((dispatch_answer reply_event answer waiting_link).0 ≡ some (reply_event answer))
    × ((dispatch_answer error_event answer (dispatch_answer reply_event answer waiting_link).1).0
        ≡ none)
answered_once_example =
    answered_once reply_event error_event answer answer waiting_link waiting_link-IsOnce refl refl
      refl refl

another : ◌≢◌ {A = ℕ × ℕ} (700, 4) (700, 3)
another same = let e : ◌≡◌ {A = ℕ} 4 3 = ap (λ p. p.1) same in omega (arith, e)

dispatch_answer-waiting_example :
    (suc (waiting (dispatch_answer reply_event answer waiting_link).1 700 3)
      ≡ waiting waiting_link 700 3)
    × (waiting (dispatch_answer reply_event answer waiting_link).1 700 4
        ≡ waiting waiting_link 700 4)
dispatch_answer-waiting_example =
    dispatch_answer-waiting reply_event answer waiting_link 700 4 refl refl another

emit_request-Asked_example : Asked waiting_link.pending 700 (emit_request small 700 0 waiting_link)
emit_request-Asked_example = emit_request-Asked small 700 0 waiting_link

emit_request-IsOnce_example : IsOnce (emit_request small 700 0 waiting_link).1
emit_request-IsOnce_example = emit_request-IsOnce small 700 0 waiting_link waiting_link-IsOnce

emit-queued_example :
    ((emit small Kind.request 700 3 2 fresh).0 ≡ ok tt)
    × (queued (emit small Kind.request 700 3 2 fresh).1
        ≡ queued fresh
          ++ wire_bytes sample
              (record { kind = Kind.request; hash = 700; seq = 3 })
              (slice fresh.scratch header_len (header_len + 2)))
unfolding sample
emit-queued_example =
    emit-queued small sample-IsCodec Kind.request 700 3 2 fresh fresh-CanSend (omega arith)
      (omega arith)

abbrev filled_up : Link
filled_up = record fresh { tx_len = 120 }

filled_up-CanSend : CanSend small filled_up
filled_up-CanSend = record { scratch_size = refl; tx_size = refl; tx_within = omega arith }

emit_full_example : emit small Kind.request 700 3 2 filled_up ≡ (
  err full,
  record (with_frame small sample-IsCodec Kind.request 700 3 2 filled_up filled_up-CanSend) {
    stats = record (fresh.stats) { tx_full = bump32 fresh.stats.tx_full };
  },
)
unfolding sample
emit_full_example =
    emit_full small sample-IsCodec Kind.request 700 3 2 filled_up filled_up-CanSend (omega arith)
      (omega arith)

queue_hello-Untouched_example : Untouched waiting_link (queue_hello small true waiting_link).1
queue_hello-Untouched_example = queue_hello-Untouched small true waiting_link

-- Two frames are queued, of one byte and of two.
abbrev two_queued : Link
two_queued = record waiting_link { tx = 5 ∷ 0 ∷ 6 ∷ 7 ∷ 0 ∷ replicate 123 0; tx_len = 5 }

drain_frame_lem_example :
    ((drain_frame small 8 two_queued).0 ≡ some (5 ∷ 0 ∷ []))
    × (queued (drain_frame small 8 two_queued).1 ≡ 6 ∷ 7 ∷ 0 ∷ [])
drain_frame_lem_example =
    drain_frame_lem small 8 two_queued refl (omega arith) (5 ∷ []) (6 ∷ 7 ∷ 0 ∷ [])
      (omega arith, tt) refl (omega arith)

feed_returns_example :
    (r : ℕ × Link) × ((feed small (9 ∷ 0 ∷ []) fresh ≡ some r)
      × ((r.0 ≤ 2) × (r.1.rx_len ≤ length r.1.rx) × (length r.1.rx ≡ 128)))
feed_returns_example = feed_returns small (9 ∷ 0 ∷ []) fresh (omega arith)

feed_appends_example :
    (l' : Link) × ((feed small (9 ∷ 0 ∷ []) waiting_link ≡ some (2, l'))
      × (received l' ≡ received waiting_link ++ (9 ∷ 0 ∷ [])))
feed_appends_example = feed_appends small (9 ∷ 0 ∷ []) waiting_link refl refl (omega arith)

next_returns_example : (r : Option Event × Link) × (next small waiting_link ≡ some r)
next_returns_example = next_returns small waiting_link

dispatch-side_example : side (dispatch small answer waiting_link).1 ≡ side waiting_link
dispatch-side_example = dispatch-side small answer waiting_link

-- Four seconds and more without a valid frame.
tick_lem_example : Ticks true true (some (codes "a")) (tick small 4200 waiting_link)
tick_lem_example = tick_lem small 4200 waiting_link

-- A Hello has come from `node`, which publishes temperatures.
abbrev greeting : Bytes
greeting = hello_bytes false false node (temperature ∷ [])

abbrev greeted : Link
greeted = record fresh {
  started = true;
  rx = replicate header_len 0 ++ greeting ++ replicate 64 0;
  rx_len = header_len + 31;
}

abbrev hello_frame : Frame
hello_frame = record { kind = Kind.hello; hash = 0; seq = 0; len = 31; generation = 0 }

-- It is accepted.
connected_run :
    ((on_hello small hello_frame greeted).1.connected ≡ true)
    × ((on_hello small hello_frame greeted).1.peer ≡ some node)
unfolding on_hello validate_hello id_buf queue_hello hello_parse valid_namespace from_utf8
    sources_iter bytes_eq endpoint_hash read_bytes read_str read_entry valid_type flat_map
    hello_entries hello_write write_bytes write_str seal sample encode
connected_run = (refl, refl)

-- The answer that `waiting_link` waits for, on the wire.
abbrev answer_header : Header
answer_header = record { kind = Kind.reply; hash = 700; seq = 3 }

answer_header-IsHeader : IsHeader answer_header
answer_header-IsHeader = record { hash_range = omega arith; seq_range = omega arith }

abbrev two_bytes : Bytes
two_bytes = 104 ∷ 105 ∷ []

two_bytes-IsByte : All IsByte two_bytes
two_bytes-IsByte = (omega arith, (omega arith, tt))

abbrev answered_link : Link
answered_link = record waiting_link {
  rx = wire_bytes sample answer_header two_bytes ++ replicate 101 0;
  rx_len = 27;
}

answer_fits : overhead + 2 ≤ 48
answer_fits = omega arith

answer_short : 2 < 2 ^ 16
answer_short = omega arith

answer_within : 27 ≤ length answered_link.rx
unfolding sample
answer_within = omega arith

answer_there : received answered_link ≡ wire_bytes sample answer_header two_bytes ++ []
unfolding sample
answer_there = refl

-- The link and the frame that `dispatch` is given.
abbrev answer_arrived : Link
answer_arrived =
    arrived small sample-IsCodec answer_header answer_header-IsHeader two_bytes two_bytes-IsByte
      answer_fits answer_short answered_link [] answer_within answer_there

abbrev answer_frame : Frame
answer_frame = record { kind = Kind.reply; hash = 700; seq = 3; len = 2; generation = 1 }

next_delivers_example :
    (next small answered_link
      ≡ some (some (reply_event answer_frame), (dispatch small answer_frame answer_arrived).1))
    × (payload (dispatch small answer_frame answer_arrived).1 answer_frame ≡ two_bytes)
unfolding dispatch
next_delivers_example =
    next_delivers small sample-IsCodec answer_header answer_header-IsHeader two_bytes
      two_bytes-IsByte answer_fits answer_short answered_link [] answer_within answer_there
      (reply_event answer_frame) refl refl refl

-- A link that has handed out `answer_frame` and is called again.
abbrev handed_out : Link
handed_out = record waiting_link { rx_generation = 1; rx_len = 27; rx_consumed = 27 }

rx_compact-stale_example :
    (payload handed_out answer_frame ≡ slice handed_out.rx header_len (header_len + 2))
    × (payload (rx_compact handed_out) answer_frame ≡ [])
rx_compact-stale_example = rx_compact-stale handed_out answer_frame (omega arith) (omega arith) refl

-- Two bridges take any request.
abbrev bridged : Link
bridged = record waiting_link { bridge = true; peer_bridge = true }

request_raw-Requested_example : Requested bridged 700 (request_raw small 700 (1 ∷ 2 ∷ []) bridged)
request_raw-Requested_example = request_raw-Requested small 700 (1 ∷ 2 ∷ []) bridged
