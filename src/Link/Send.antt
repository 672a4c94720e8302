-- ===== src/Link/Send.antt =====
-- The methods of crates/reiny-link/src/link.rs that send: `send`, `request`, `reply`, `reply_err`,
-- their pre-encoded forms, and what they ask first.
use reiny.Prelude.{
  ℕ, Bool, true, false, not, ◌&&◌, none, Result, ok, err, ◌==◌, if◌then◌else◌, is_none, is_some_and,
  Bytes, List, [], ◌∷◌,
}
use reiny.Core.{output, rpc_client, rpc_server, MessageType, Service, StaticEndpointAddress}
use reiny.Wire.Types.{flag_calls}
use reiny.Wire.Hash.{endpoint_hash}
use reiny.Link.State.{
  Env, Link, Error, not_declared, no_peer_service, schema_mismatch, invalid_ports, Act, ◌>>=◌, ◌>>◌,
  check,
}
use reiny.Link.Lookup.{
  local_type, local_source, remote_type, source_hash, peer_subscribes_hash, peer_serves_hash,
}
use reiny.Link.Emit.{
  Message, encode_payload, copy_payload, emit_data, emit_request, emit_error, emit_reply,
  check_publishes,
}
use reiny.Link.Declare.{port, check_port, response_type}

-- `port.sources.first().ok_or(Error::InvalidPorts)?`
abbrev first_source : List StaticEndpointAddress → Result Error ℕ
first_source [] = err invalid_ports
first_source (s ∷ rest) = ok (source_hash s)

abbrev pub refuse_with : Bool → Error → Act (Unit {0})
refuse_with true e l = (err e, l)
refuse_with false e l = (ok tt, l)

unfoldable pub request_hash : Service → Bytes → Act ℕ
request_hash s name = do
  check (check_port s.request name rpc_client (response_type s))
  found ← check (port s.request name rpc_client (response_type s))
  check (λ _. first_source found.port.sources)

-- The fingerprint that the tables hold for `hash` is another than ours.
abbrev local_differs : ℕ → MessageType → Link → Bool
local_differs hash t l =
    is_some_and (local_type l hash) (λ local. not (local.schema == t.schema_fingerprint))

abbrev remote_differs : ℕ → MessageType → Link → Bool
remote_differs hash t l =
    is_some_and (remote_type l hash) (λ remote. not (remote.schema == t.schema_fingerprint))

module _ (env : Env) where
  -- `if !self.peer_subscribes_hash(hash) { return Ok(false); }`, then the payload and the frame.
  send_if_taken : ℕ → Act ℕ → Act Bool
  send_if_taken hash payload l =
      let sent = (payload >>= λ len. emit_data env hash len) l in
      if peer_subscribes_hash l hash then sent else (ok false, l)

  unfoldable pub send : MessageType → Bytes → Message → Act Bool
  unfolding send_if_taken
  send t name msg l =
      let hash = endpoint_hash l.id name in
      (do
        check (check_port t name output none)
        check (check_publishes hash)
        refuse_with (local_differs hash t l) schema_mismatch
        send_if_taken hash (encode_payload env msg))
        l

  unfoldable pub send_raw : ℕ → Bytes → Act Bool
  unfolding send_if_taken
  send_raw hash payload = do
    check (check_publishes hash)
    send_if_taken hash (copy_payload env payload)

  request_if_served : Service → Message → ℕ → Act ℕ
  request_if_served s msg hash l =
      (do
        refuse_with (not (peer_serves_hash l hash)) no_peer_service
        refuse_with (remote_differs hash s.request l) schema_mismatch
        len ← encode_payload env msg
        emit_request env hash len)
        l

  unfoldable pub request : Service → Bytes → Message → Act ℕ
  unfolding request_hash request_if_served
  request s name msg = do
    check (check_port s.request name rpc_client (response_type s))
    hash ← request_hash s name
    request_if_served s msg hash

  unfoldable pub request_raw : ℕ → Bytes → Act ℕ
  request_raw hash payload l =
      (do
        refuse_with (not l.bridge && is_none (local_source l hash flag_calls)) not_declared
        refuse_with (not (peer_serves_hash l hash)) no_peer_service
        len ← copy_payload env payload
        emit_request env hash len)
        l

  unfoldable pub reply : Service → Bytes → ℕ → Message → Act (Unit {0})
  reply s name seq resp l =
      (do
        check (check_port s.request name rpc_server (response_type s))
        len ← encode_payload env resp
        emit_reply env (endpoint_hash l.id name) seq s.response.schema_fingerprint len)
        l

  unfoldable pub reply_raw : ℕ → ℕ → ℕ → Bytes → Act (Unit {0})
  reply_raw seq hash schema payload = do
    len ← copy_payload env payload
    emit_reply env hash seq schema len

  unfoldable pub reply_err : Service → Bytes → ℕ → Bytes → Act (Unit {0})
  reply_err s name seq message l =
      (do
        check (check_port s.request name rpc_server (response_type s))
        emit_error env (endpoint_hash l.id name) seq message)
        l

  unfoldable pub reply_err_raw : ℕ → ℕ → Bytes → Act (Unit {0})
  reply_err_raw seq hash message = emit_error env hash seq message

-- `peer_subscribes` and `peer_serves`
abbrev is_ok : Result Error (Unit {0}) → Bool
is_ok (ok _) = true
is_ok (err _) = false

pub peer_subscribes : MessageType → Bytes → Link → Bool
peer_subscribes t name l =
    is_ok (check_port t name output none l) && peer_subscribes_hash l (endpoint_hash l.id name)

abbrev is_ok_and : Result Error ℕ → (ℕ → Bool) → Bool
is_ok_and (ok hash) p = p hash
is_ok_and (err _) p = false

pub peer_serves : Service → Bytes → Link → Bool
unfolding request_hash
peer_serves s name l = is_ok_and (request_hash s name l).0 (peer_serves_hash l)
