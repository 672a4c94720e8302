-- ===== src/Link/Dispatch.antt =====
-- `cancel_request` and `dispatch` of crates/reiny-link/src/link.rs.
pub mod Kept
use reiny.Prelude.{
  ℕ, Bool, not, ◌&&◌, ◌||◌, Option, none, some, Bytes, codes, ◌==◌, if◌then◌else◌, is_some,
  is_some_and, is_none_or, clear_first,
}
use reiny.Wire.Types.{Kind, flag_pub, flag_sub, flag_serve, flag_calls}
use reiny.Wire.HelloParser.{has_flag}
use reiny.Link.State.{
  Env, Link, Frame, Event, data_event, request_event, reply_event, error_event, bump32,
}
use reiny.Link.Lookup.{local_type, local_source, remote_type, remote_source}
use reiny.Link.Emit.{is_pending, emit_error}
use reiny.Link.Handshake.{on_hello}

unfoldable pub cancel_request : ℕ → ℕ → Link → Link
cancel_request hash seq l = record l {
  pending = clear_first (λ p. p.0 == hash && p.1 == seq) l.pending;
}

abbrev pub drop_unwanted : Link → Link
drop_unwanted l = record l {
  stats = record (l.stats) { dropped_unwanted = bump32 l.stats.dropped_unwanted };
}

abbrev pub drop_schema : Link → Link
drop_schema l = record l {
  stats = record (l.stats) { dropped_schema = bump32 l.stats.dropped_schema };
}

-- Data of an output that we take.
abbrev pub is_wanted : Link → Frame → Bool
is_wanted l frame =
    if l.bridge
    then is_some_and (remote_type l frame.hash) (λ t. has_flag t.flags flag_pub)
    else is_some (local_source l frame.hash flag_sub)

-- Data of an output that the peer has not declared.
abbrev pub is_undeclared : Link → Frame → Bool
is_undeclared l frame =
    not l.peer_bridge
    && is_none_or (remote_type l frame.hash) (λ t. t.mismatch || not (has_flag t.flags flag_pub))

unfoldable pub dispatch_data : Frame → Link → Option Event × Link
dispatch_data frame l =
    if not (is_wanted l frame)
    then (none, drop_unwanted l)
    else if not l.connected || is_undeclared l frame
    then (none, drop_schema l)
    else (some (data_event frame), l)

-- `"undeclared source"` and `"no such service"`
abbrev pub undeclared_source : Bytes
undeclared_source = codes "undeclared source"

abbrev pub no_such_service : Bytes
no_such_service = codes "no such service"

module _ (env : Env) where
  pub refuse_request : Frame → Bytes → Link → Option Event × Link
  refuse_request frame message l =
      (none, (emit_error env frame.hash frame.seq message (drop_unwanted l)).1)

  unfoldable pub dispatch_request : Frame → Link → Option Event × Link
  unfolding refuse_request
  dispatch_request frame l =
      let served = is_some_and (local_type l frame.hash) (λ t. has_flag t.flags flag_serve) in
      let caller = is_some (remote_source l frame.hash flag_calls) in
      if not l.connected || (not l.peer_bridge && not caller)
      then refuse_request frame undeclared_source l
      else if served || (l.bridge && caller)
      then (some (request_event frame), l)
      else refuse_request frame no_such_service l

-- `Kind::Reply | Kind::Error`, with the event that it becomes.
unfoldable pub dispatch_answer : (Frame → Event) → Frame → Link → Option Event × Link
unfolding cancel_request
dispatch_answer event frame l =
    if not l.connected || not (is_pending l.pending frame.hash frame.seq)
    then (none, drop_unwanted l)
    else (some (event frame), cancel_request frame.hash frame.seq l)

module _ (env : Env) where
  dispatch_kind : Kind → Frame → Link → Option Event × Link
  unfolding dispatch_data dispatch_request dispatch_answer
  dispatch_kind Kind.hello frame l = on_hello env frame l
  dispatch_kind Kind.ping frame l = (none, l)
  dispatch_kind Kind.data_frame frame l = dispatch_data frame l
  dispatch_kind Kind.request frame l = dispatch_request env frame l
  dispatch_kind Kind.reply frame l = dispatch_answer reply_event frame l
  dispatch_kind Kind.error_frame frame l = dispatch_answer error_event frame l

  unfoldable pub dispatch : Frame → Link → Option Event × Link
  unfolding dispatch_kind
  dispatch frame l = dispatch_kind frame.kind frame l
