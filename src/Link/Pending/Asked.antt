-- ===== src/Link/Pending/Asked.antt =====
-- `emit_request` of crates/reiny-link/src/link.rs: which sequence number it takes, and what it notes.
use reiny.Prelude.{
  ℕ, zero, suc, ◌+◌, ◌≤◌, ◌≡◌, refl, ap, arith, Bool, true, false, Option, none, some, Result, ok,
  err, List, if◌then◌else◌, is_full, filled, fill_free,
}
use reiny.Wire.Types.{Kind}
use reiny.Link.State.{Env, Link, Error, table_full, bump8, continue}
use reiny.Link.Emit.{is_pending, next_seq, note_request, request_at, emit_request}
use reiny.Link.Emit.Untouched.{Kept, emit-Untouched}
use reiny.Link.Pending.{same_request, count-none, count-fill_free, waiting, IsOnce}

pub next_seq-free :
    (pending : List (Option (ℕ × ℕ))) (hash left seq : ℕ) {found : ℕ}
    → next_seq pending hash left seq ≡ some found
    → is_pending pending hash found ≡ false
unfolding next_seq
next_seq-free pending hash zero seq h = cc
next_seq-free pending hash (suc left) seq {found} h =
    by_use (is_pending pending hash seq) refl h (next_seq-free pending hash left (bump8 seq))
  where
    by_use :
        (b : Bool)
        → is_pending pending hash seq ≡ b
        → elim b [ true ↦ next_seq pending hash left (bump8 seq) | false ↦ some seq ] ≡ some found
        → (next_seq pending hash left (bump8 seq) ≡ some found
            → is_pending pending hash found ≡ false)
        → is_pending pending hash found ≡ false
    by_use true e h later = later h
    by_use false e h later = let same : seq ≡ found = cc in rw (← same) e

-- What `emit_request` does to the table: an answer that nobody waited for is waited for now, or the
-- table is as it was.
abbrev pub Asked : List (Option (ℕ × ℕ)) → ℕ → Result Error ℕ × Link → Type 0
Asked pending hash (ok seq, l') =
    (is_full pending ≡ false)
    × (is_pending pending hash seq ≡ false)
    × (l'.pending ≡ fill_free (hash, seq) pending)
Asked pending hash (err e, l') = l'.pending ≡ pending

noted-Asked :
    (l : Link) (hash seq : ℕ) (r : Result Error (Unit {0})) (m : Link)
    → is_full l.pending ≡ false
    → is_pending l.pending hash seq ≡ false
    → m.pending ≡ l.pending
    → Asked l.pending hash (continue (λ _. note_request hash seq) r m)
noted-Asked l hash seq (ok _) m room free same = (room, free, ap (fill_free (hash, seq)) same)
noted-Asked l hash seq (err e) m room free same = same

module _ (env : Env) (hash len : ℕ) (l : Link) where
  request_at-Asked :
      (found : Option ℕ)
      → is_full l.pending ≡ false
      → next_seq l.pending hash 256 l.req_seq ≡ found
      → Asked l.pending hash (request_at env hash len found l)
  request_at-Asked none room e = refl
  request_at-Asked (some seq) room e =
      noted-Asked l hash seq _ _ room (next_seq-free l.pending hash 256 l.req_seq e)
        (ap (λ (k : Kept). k.pending) (emit-Untouched env Kind.request hash seq len l))

  -- A request that is sent found the table with a free slot, took a sequence number that no entry
  -- with its endpoint had, and put one entry into the first free slot; one that is not sent leaves
  -- the table as it was.
  pub emit_request-Asked : Asked l.pending hash (emit_request env hash len l)
  unfolding emit_request
  emit_request-Asked = by_room (is_full l.pending) refl
    where
      by_room :
          (b : Bool)
          → is_full l.pending ≡ b
          → Asked l.pending hash (
              if b
              then (err table_full, l)
              else request_at env hash len (next_seq l.pending hash 256 l.req_seq) l)
      by_room true e = refl
      by_room false e = request_at-Asked _ e refl

same_request-eq : (hash seq h s : ℕ) → same_request h s (hash, seq) ≡ true → (h ≡ hash) × (s ≡ seq)
same_request-eq hash seq h s e = ground arith

-- One more entry waits for the request that was sent, and no entry more for any other.
waiting-Asked :
    (l : Link) (hash : ℕ) (r : Result Error ℕ × Link)
    → Asked l.pending hash r
    → IsOnce l
    → IsOnce r.1
waiting-Asked l hash (err e, l') same once h s = rw same (once h s)
waiting-Asked l hash (ok seq, l') (room, free, same) once h s =
    rw (same, count-fill_free (same_request h s) (hash, seq) l.pending room)
      (by_same (same_request h s (hash, seq)) refl)
  where
    by_same :
        (b : Bool) → same_request h s (hash, seq) ≡ b → (if b then 1 else 0) + waiting l h s ≤ 1
    by_same true e =
        let (of_hash, of_seq) = same_request-eq hash seq h s e in
        rw (of_hash, of_seq)
          (omega (arith, count-none (same_request hash seq) (filled l.pending) free))
    by_same false e = omega (arith, once h s)

-- On a link where no two entries wait for the same answer none do behind `emit_request` either,
-- whether the request is sent or not.
pub emit_request-IsOnce :
    (env : Env) (hash len : ℕ) (l : Link) → IsOnce l → IsOnce (emit_request env hash len l).1
emit_request-IsOnce env hash len l once =
    waiting-Asked l hash (emit_request env hash len l) (emit_request-Asked env hash len l) once
