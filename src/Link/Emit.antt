-- ===== src/Link/Emit.antt =====
-- Sending in crates/reiny-link/src/link.rs, from the payload in `scratch` to the send buffer.
pub mod Frames
pub mod Untouched
use reiny.Prelude.{
  ℕ, zero, suc, ◌+◌, ◌-◌, Bool, true, false, not, ◌&&◌, Option, none, some, Result, ok, err, List,
  ◌++◌, Bytes, length, take, drop, map, min, splice, slice, ltb, ◌==◌, if◌then◌else◌, any, filled,
  is_none_or, to_le_bytes, fill_free, is_full,
}
use reiny.Wire.Types.{WireError, Kind, overhead, header_len, trailer_len, flag_pub}
use reiny.Wire.Frame.{seal, encode, encoded_max}
use reiny.Wire.Table.{HelloType, HelloEntry, from_static}
use reiny.Wire.HelloWriter.{hello_write}
use reiny.Wire.HelloParser.{Hello, hello_parse, has_flag}
use reiny.Core.{PortType}
use reiny.Link.State.{
  Env, Link, LocalType, Error, too_large, full, table_full, invalid_ports, not_declared,
  encode_error, Act, ◌>>=◌, ◌>>◌, give, bump32, bump8,
}
use reiny.Link.Lookup.{local_type}

abbrev pub map_response : Option PortType → Option HelloType
map_response none = none
map_response (some r) = some (record { name = r.ty; schema = r.schema })

abbrev pub hello_entry : LocalType → HelloEntry
hello_entry t = record {
  hash = t.hash;
  flags = t.flags;
  schema = t.schema;
  name = t.name;
  port = t.port.port.name;
  response = map_response t.port.port.response;
  sources = from_static t.port.port.sources;
}

-- What `prost` offers of a message: its encoded length, and the bytes that `encode` writes into a
-- slot of a given size, if it does.
pub record Message : Type 0 where
  pub encoded_len : ℕ
  pub encode : ℕ → Option Bytes

-- `self.pending.contains(&Some((hash, seq)))`
abbrev pub is_pending : List (Option (ℕ × ℕ)) → ℕ → ℕ → Bool
is_pending pending hash seq = any (λ p. p.0 == hash && p.1 == seq) (filled pending)

-- The first sequence number, counted up from `seq`, that is not in use with this hash; `left` of
-- them are to be tried.
unfoldable pub next_seq : List (Option (ℕ × ℕ)) → ℕ → ℕ → ℕ → Option ℕ
next_seq pending hash zero seq = none
next_seq pending hash (suc left) seq = elim (is_pending pending hash seq) [
  | true ↦ next_seq pending hash left (bump8 seq)
  | false ↦ some seq
]

-- `self.req_seq = seq.wrapping_add(1); self.pending[free] = Some((hash, seq));`
abbrev pub note_request : ℕ → ℕ → Act ℕ
note_request hash seq l =
    (ok seq, record l { req_seq = bump8 seq; pending = fill_free (hash, seq) l.pending })

module _ (env : Env) where
  open env use {codec, frame}

  -- `FRAME.saturating_sub(OVERHEAD)`
  abbrev pub payload_max : ℕ
  payload_max = frame - overhead

  abbrev pub no_room : Act (Unit {0})
  no_room l = (err full, record l { stats = record (l.stats) { tx_full = bump32 l.stats.tx_full } })

  -- Behind `encode`, into what is free of the send buffer.
  abbrev pub place_frame : Result WireError (ℕ × Bytes) → Act (Unit {0})
  place_frame (ok (n, out)) l = (
    ok tt,
    record l { tx = take l.tx_len l.tx ++ out; tx_len = l.tx_len + n; last_tx_ms = l.now_ms },
  )
  place_frame (err _) l = (err full, l)

  -- Behind `seal`: the frame goes onto the send buffer.
  pub push_frame : ℕ → Act (Unit {0})
  push_frame raw_len l =
      if ltb (length l.tx - l.tx_len) (encoded_max codec raw_len)
      then no_room l
      else place_frame (encode codec (take raw_len l.scratch) (drop l.tx_len l.tx)) l

  abbrev pub push_sealed : Result WireError (ℕ × Bytes) → Act (Unit {0})
  unfolding push_frame
  push_sealed (ok (raw_len, sealed)) l = push_frame raw_len (record l { scratch = sealed })
  push_sealed (err _) l = (err too_large, l)

  unfoldable pub emit : Kind → ℕ → ℕ → ℕ → Act (Unit {0})
  unfolding push_frame
  emit kind hash seq payload_len l =
      push_sealed
        (seal codec l.scratch (record { kind = kind; hash = hash; seq = seq }) payload_len) l

  -- `encode_payload`: `prost` knows a message's length and writes it into a slot of that length.
  unfoldable pub encode_payload : Message → Act ℕ
  encode_payload msg l =
      if ltb payload_max msg.encoded_len
      then (err too_large, l)
      else elim (msg.encode msg.encoded_len) [
        | some bytes ↦
            (ok msg.encoded_len, record l { scratch = splice l.scratch header_len bytes })
        | none ↦ (err encode_error, l)
      ]

  unfoldable pub copy_payload : Bytes → Act ℕ
  copy_payload payload l =
      if ltb payload_max (length payload)
      then (err too_large, l)
      else (ok (length payload), record l { scratch = splice l.scratch header_len payload })

  -- The Hello goes into `scratch[HEADER..FRAME - TRAILER]`.
  write_hello : Bool → Link → Result WireError ℕ × Bytes
  write_hello ack l =
      hello_write (slice l.scratch header_len (frame - trailer_len)) ack l.bridge l.id
        (map hello_entry (filled l.local))

  -- What was written is parsed, to check it.
  abbrev pub checked_hello : ℕ → Result WireError Hello → Act ℕ
  checked_hello len (err _) l = (err invalid_ports, l)
  checked_hello len (ok _) l = (ok len, l)

  abbrev pub written_hello : Result WireError ℕ → Act ℕ
  written_hello (err _) l = (err too_large, l)
  written_hello (ok len) l =
      checked_hello len (hello_parse (slice l.scratch header_len (header_len + len))) l

  unfoldable pub hello_payload : Bool → Act ℕ
  unfolding write_hello
  hello_payload ack l =
      let written = write_hello ack l in
      written_hello written.0 (record l { scratch = splice l.scratch header_len written.1 })

  unfoldable pub queue_hello : Bool → Act (Unit {0})
  unfolding emit hello_payload
  queue_hello ack = do len ← hello_payload ack; emit Kind.hello 0 0 len

  -- `let _ = self.queue_hello(false);` keeps the link and drops the result.
  unfoldable pub ensure_started : Link → Link
  ensure_started l =
      let running = record l { started = true } in
      if l.started then l else (queue_hello false running).1

  unfoldable pub emit_data : ℕ → ℕ → Act Bool
  unfolding emit
  emit_data hash len l =
      let seq = l.data_seq in
      (emit Kind.data_frame hash seq len >> give true) (record l { data_seq = bump8 seq })

  -- With the sequence number that was found.
  abbrev pub request_at : ℕ → ℕ → Option ℕ → Act ℕ
  request_at hash len none l = (err table_full, l)
  request_at hash len (some seq) l = (emit Kind.request hash seq len >> note_request hash seq) l

  unfoldable pub emit_request : ℕ → ℕ → Act ℕ
  unfolding emit next_seq
  emit_request hash len l =
      if is_full l.pending
      then (err table_full, l)
      else request_at hash len (next_seq l.pending hash 256 l.req_seq) l

  unfoldable pub emit_error : ℕ → ℕ → Bytes → Act (Unit {0})
  unfolding emit
  emit_error hash seq message l =
      let len = min (length message) payload_max in
      emit Kind.error_frame hash seq len
        (record l { scratch = splice l.scratch header_len (take len message) })

  -- The payload moves up by eight bytes, and the fingerprint goes in front of it.
  abbrev prefix_schema : ℕ → ℕ → Bytes → Bytes
  prefix_schema schema len scratch =
      let moved = splice scratch (header_len + 8) (slice scratch header_len (header_len + len)) in
      splice moved header_len (to_le_bytes 8 schema)

  unfoldable pub emit_reply : ℕ → ℕ → ℕ → ℕ → Act (Unit {0})
  unfolding emit
  emit_reply hash seq schema len l =
      let reply_len = len + 8 in
      if ltb payload_max reply_len
      then (err too_large, l)
      else emit Kind.reply hash seq reply_len
          (record l { scratch = prefix_schema schema len l.scratch })

unfoldable pub check_publishes : ℕ → Link → Result Error (Unit {0})
check_publishes hash l =
    if not l.bridge && is_none_or (local_type l hash) (λ t. not (has_flag t.flags flag_pub))
    then err not_declared
    else ok tt
