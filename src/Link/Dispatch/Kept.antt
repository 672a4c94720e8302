-- ===== src/Link/Dispatch/Kept.antt =====
-- `dispatch` of crates/reiny-link/src/link.rs leaves the receive buffer alone, whatever the frame is.
use reiny.Prelude.{
  ℕ, ◌≡◌, refl, ap, Bool, true, false, not, ◌||◌, ◌&&◌, Option, none, some, Result, ok, err, Bytes,
  if◌then◌else◌, is_some_and, is_some, splice, take, length, min,
}
use reiny.Wire.Types.{Kind, header_len, flag_serve, flag_calls}
use reiny.Wire.HelloParser.{has_flag}
use reiny.Link.State.{
  Env, Link, Frame, Event, Error, table_full, PeerContract, request_event, data_event, reply_event,
  error_event,
}
use reiny.Link.Lookup.{local_type, remote_source}
use reiny.Link.Emit.{emit_error, payload_max, is_pending, queue_hello}
use reiny.Link.Emit.Untouched.{Kept, emit-Untouched, queue_hello-Untouched}
use reiny.Link.Handshake.{count_bad_frame, count_overflow, install, answer_hello, on_hello}
use reiny.Link.Dispatch.{
  drop_unwanted, drop_schema, is_wanted, is_undeclared, dispatch_data, refuse_request,
  undeclared_source, no_such_service, dispatch_request, dispatch_answer, cancel_request,
  dispatch_kind, dispatch,
}

-- The receive buffer.
pub record Side : Type 0 where
  pub rx : Bytes
  pub rx_len : ℕ
  pub rx_consumed : ℕ
  pub rx_generation : ℕ

abbrev pub side : Link → Side
side l = record {
  rx = l.rx;
  rx_len = l.rx_len;
  rx_consumed = l.rx_consumed;
  rx_generation = l.rx_generation;
}

abbrev side_of : Kept → Side
side_of k = record {
  rx = k.rx;
  rx_len = k.rx_len;
  rx_consumed = k.rx_consumed;
  rx_generation = k.rx_generation;
}

abbrev left_side : Option Event × Link → Side
left_side r = side r.1

dispatch_data-side : (frame : Frame) (l : Link) → side (dispatch_data frame l).1 ≡ side l
unfolding dispatch_data
dispatch_data-side frame l =
    by_tests (not (is_wanted l frame)) (not l.connected || is_undeclared l frame)
  where
    by_tests :
        (a b : Bool)
        → left_side (
            if a
            then (none, drop_unwanted l)
            else if b
            then (none, drop_schema l)
            else (some (data_event frame), l))
          ≡ side l
    by_tests true b = refl
    by_tests false true = refl
    by_tests false false = refl

dispatch_answer-side :
    (event : Frame → Event) (frame : Frame) (l : Link)
    → side (dispatch_answer event frame l).1 ≡ side l
unfolding dispatch_answer cancel_request
dispatch_answer-side event frame l =
    by_test (not l.connected || not (is_pending l.pending frame.hash frame.seq))
  where
    by_test :
        (b : Bool)
        → left_side (
            if b
            then (none, drop_unwanted l)
            else (some (event frame), cancel_request frame.hash frame.seq l))
          ≡ side l
    by_test true = refl
    by_test false = refl

module _ (env : Env) where
  refuse_request-side :
      (frame : Frame) (message : Bytes) (l : Link)
      → side (refuse_request env frame message l).1 ≡ side l
  unfolding refuse_request emit_error
  refuse_request-side frame message l = ap side_of (
      emit-Untouched env Kind.error_frame frame.hash frame.seq
        (min (length message) (payload_max env))
        (record (drop_unwanted l) {
          scratch =
              splice l.scratch header_len (take (min (length message) (payload_max env)) message);
        }))

  dispatch_request-side :
      (frame : Frame) (l : Link) → side (dispatch_request env frame l).1 ≡ side l
  unfolding dispatch_request
  dispatch_request-side frame l =
      let served = is_some_and (local_type l frame.hash) (λ t. has_flag t.flags flag_serve) in
      let caller = is_some (remote_source l frame.hash flag_calls) in
      by_tests (not l.connected || (not l.peer_bridge && not caller))
        (served || (l.bridge && caller))
    where
      by_tests :
          (a b : Bool)
          → left_side (
              if a
              then refuse_request env frame undeclared_source l
              else if b
              then (some (request_event frame), l)
              else refuse_request env frame no_such_service l)
            ≡ side l
      by_tests true b = refuse_request-side frame undeclared_source l
      by_tests false true = refl
      by_tests false false = refuse_request-side frame no_such_service l

  count_overflow-side : (e : Error) (l : Link) → side (count_overflow env e l) ≡ side l
  count_overflow-side table_full l = refl
  count_overflow-side e l = refl

  answer_hello-side :
      (r : Result Error PeerContract) (payload : Bytes) (frame : Frame) (l : Link)
      → side (answer_hello env r payload frame l).1 ≡ side l
  answer_hello-side (err e) payload frame l = count_overflow-side e (count_bad_frame env l)
  answer_hello-side (ok contract) payload frame l = by_ack contract.ack
    where
      by_ack :
          (b : Bool)
          → side (
              if b
              then install env contract payload l
              else (queue_hello env true (install env contract payload l)).1)
            ≡ side l
      by_ack true = refl
      by_ack false = ap side_of (queue_hello-Untouched env true (install env contract payload l))

  dispatch_kind-side :
      (kind : Kind) (frame : Frame) (l : Link) → side (dispatch_kind env kind frame l).1 ≡ side l
  unfolding dispatch_kind on_hello
  dispatch_kind-side Kind.hello frame l = answer_hello-side _ _ frame l
  dispatch_kind-side Kind.ping frame l = refl
  dispatch_kind-side Kind.data_frame frame l = dispatch_data-side frame l
  dispatch_kind-side Kind.request frame l = dispatch_request-side frame l
  dispatch_kind-side Kind.reply frame l = dispatch_answer-side reply_event frame l
  dispatch_kind-side Kind.error_frame frame l = dispatch_answer-side error_event frame l

  -- Whatever frame comes, and whatever is made of it, `dispatch` leaves the receive buffer, its
  -- marks and its generation as they were.
  pub dispatch-side : (frame : Frame) (l : Link) → side (dispatch env frame l).1 ≡ side l
  unfolding dispatch
  dispatch-side frame l = dispatch_kind-side frame.kind frame l
