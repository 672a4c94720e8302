-- ===== src/Link/Pending/Requested.antt =====
-- `request_raw` of crates/reiny-link/src/link.rs: what a request that is sent, and one that is not, make
-- of the table of requests.
use reiny.Prelude.{
  ℕ, ◌≡◌, refl, Bool, true, false, not, ◌&&◌, is_none, Result, ok, err, Bytes, length, ltb,
  if◌then◌else◌, splice,
}
use reiny.Wire.Types.{header_len, flag_calls}
use reiny.Link.State.{
  Env, Link, Error, too_large, not_declared, no_peer_service, Act, continue, ◌>>=◌, ◌>>◌,
}
use reiny.Link.Lookup.{local_source, peer_serves_hash}
use reiny.Link.Emit.{copy_payload, payload_max, emit_request}
use reiny.Link.Send.{request_raw, refuse_with}
use reiny.Link.Pending.Asked.{Asked, emit_request-Asked}

-- Sent to an endpoint that is served, or not at all.
abbrev pub Requested : Link → ℕ → Result Error ℕ × Link → Type 0
Requested l hash (ok seq, l') = (peer_serves_hash l hash ≡ true) × Asked l.pending hash (ok seq, l')
Requested l hash (err e, l') = l'.pending ≡ l.pending

Requested-of_Asked :
    (l : Link) (hash : ℕ) (r : Result Error ℕ × Link)
    → peer_serves_hash l hash ≡ true
    → Asked l.pending hash r
    → Requested l hash r
Requested-of_Asked l hash (ok seq, l') served asked = (served, asked)
Requested-of_Asked l hash (err e, l') served asked = asked

module _ (env : Env) (hash : ℕ) (payload : Bytes) (l : Link) where
  abbrev copy_and_ask : Act ℕ
  copy_and_ask = copy_payload env payload >>= λ len. emit_request env hash len

  copy_and_ask-Asked : Asked l.pending hash (copy_and_ask l)
  unfolding copy_payload
  copy_and_ask-Asked = by_size (ltb (payload_max env) (length payload))
    where
      by_size :
          (b : Bool)
          → Asked l.pending hash (
              let copied : Result Error ℕ × Link = if b then (err too_large, l) else (
                ok (length payload),
                record l { scratch = splice l.scratch header_len payload },
              ) in
              continue (λ len. emit_request env hash len) copied.0 copied.1)
      by_size true = refl
      by_size false =
          emit_request-Asked env hash (length payload)
            (record l { scratch = splice l.scratch header_len payload })

  -- A raw request that is sent was for an endpoint that a connected peer serves, and put one entry,
  -- whose sequence number no entry of the endpoint had, into the first free slot of the table;
  -- whatever makes `request_raw` fail leaves the table as it was.
  pub request_raw-Requested : Requested l hash (request_raw env hash payload l)
  unfolding request_raw
  request_raw-Requested =
      by_tests (not l.bridge && is_none (local_source l hash flag_calls)) (peer_serves_hash l hash)
        refl
    where
      by_tests :
          (a b : Bool)
          → peer_serves_hash l hash ≡ b
          → Requested l hash (
              (refuse_with a not_declared >> (refuse_with (not b) no_peer_service >> copy_and_ask))
                l)
      by_tests true b e = refl
      by_tests false false e = refl
      by_tests false true e = Requested-of_Asked l hash (copy_and_ask l) e copy_and_ask-Asked
