-- ===== src/Link/Pending/Answered.antt =====
-- The arms `Reply` and `Error` of `dispatch` in crates/reiny-link/src/link.rs: an answer is handed over
-- once, to a request that waits for it.
use reiny.Prelude.{
  suc, ◌≢◌, and_iff, ==_iff, ℕ, ◌≡◌, refl, arith, inl, inr, Bool, true, false, not, Bool-cases,
  ◌||◌, none, some, filled, clear_first,
}
use reiny.Link.State.{Link, Frame, Event}
use reiny.Link.Emit.{is_pending}
use reiny.Link.Dispatch.{cancel_request, dispatch_answer, drop_unwanted}
use reiny.Link.Pending.{
  waiting, count-clear_first_other, same_request, any-of_count, count-clear_first,
  count-clear_first_le, IsOnce,
}

pub cancel_request-IsOnce :
    (hash seq : ℕ) (l : Link) → IsOnce l → IsOnce (cancel_request hash seq l)
unfolding cancel_request
cancel_request-IsOnce hash seq l once h s =
    omega
      (arith, once h s, count-clear_first_le (same_request hash seq) (same_request h s) l.pending)

-- Clearing the one entry that waits leaves none.
pub cancel_request-clears :
    (hash seq : ℕ) (l : Link)
    → IsOnce l
    → is_pending l.pending hash seq ≡ true
    → is_pending (cancel_request hash seq l).pending hash seq ≡ false
unfolding cancel_request
cancel_request-clears hash seq l once h =
    any-of_count (same_request hash seq) (filled (clear_first (same_request hash seq) l.pending))
      (omega (arith, once hash seq, count-clear_first (same_request hash seq) l.pending h))

module _ (event : Frame → Event) (frame : Frame) (l : Link) where
  -- An answer that is not waited for, or comes while there is no connection, is counted and dropped.
  pub answer_dropped :
      (not l.connected || not (is_pending l.pending frame.hash frame.seq)) ≡ true
      → dispatch_answer event frame l ≡ (none, drop_unwanted l)
  unfolding dispatch_answer
  answer_dropped h = rw h refl

  pub answer_delivered :
      (not l.connected || not (is_pending l.pending frame.hash frame.seq)) ≡ false
      → dispatch_answer event frame l ≡ (some (event frame), cancel_request frame.hash frame.seq l)
  unfolding dispatch_answer
  answer_delivered h = rw h refl

  -- On a link where no two entries wait for the same answer none do behind an answer either, whether
  -- it is handed over or dropped.
  pub dispatch_answer-IsOnce : IsOnce l → IsOnce (dispatch_answer event frame l).1
  unfolding dispatch_answer
  dispatch_answer-IsOnce once =
      elim (Bool-cases (not l.connected || not (is_pending l.pending frame.hash frame.seq))) [
        | inl e ↦ rw (answer_dropped e) once
        | inr e ↦ rw (answer_delivered e) (cancel_request-IsOnce frame.hash frame.seq l once)
      ]

not_waited :
    (event : Frame → Event) (frame : Frame) (l : Link)
    → is_pending l.pending frame.hash frame.seq ≡ false
    → (dispatch_answer event frame l).0 ≡ none
not_waited event frame l h = rw (answer_dropped event frame l (by_connected l.connected)) refl
  where
    by_connected : (b : Bool) → (not b || not (is_pending l.pending frame.hash frame.seq)) ≡ true
    by_connected true = rw h refl
    by_connected false = refl

-- While connected, an answer that is waited for is handed over, on a link where no two entries wait
-- for the same one, and behind it no other answer with its endpoint and sequence number is, be it a
-- reply or an error.
pub answered_once :
    (event other : Frame → Event) (frame again : Frame) (l : Link)
    → IsOnce l
    → l.connected ≡ true
    → is_pending l.pending frame.hash frame.seq ≡ true
    → again.hash ≡ frame.hash
    → again.seq ≡ frame.seq
    → ((dispatch_answer event frame l).0 ≡ some (event frame))
      × ((dispatch_answer other again (dispatch_answer event frame l).1).0 ≡ none)
answered_once event other frame again l once on waits of_hash of_seq =
    rw (answer_delivered event frame l live) (
      refl,
      not_waited other again (cancel_request frame.hash frame.seq l)
          (rw (of_hash, of_seq) (cancel_request-clears frame.hash frame.seq l once waits)),
    )
  where
    live : (not l.connected || not (is_pending l.pending frame.hash frame.seq)) ≡ false
    live = rw (on, waits) refl

apart :
    (hash seq h s : ℕ) (p : ℕ × ℕ)
    → ◌≢◌ {A = ℕ × ℕ} (h, s) (hash, seq)
    → same_request hash seq p ≡ true
    → same_request h s p ≡ false
apart hash seq h s p differs same = elim (Bool-cases (same_request h s p)) [
  | inl e ↦
      let first = and_iff (==_iff p.0 hash) (==_iff p.1 seq) in
      let other = and_iff (==_iff p.0 h) (==_iff p.1 s) in
      let at_first = first.0 same in
      let at_other = other.0 e in
      absurd (
        differs (
          let a = at_first.0 in
          let b = at_first.1 in let c = at_other.0 in let d = at_other.1 in cc))
  | inr e ↦ e
]

-- While connected, an answer that is waited for takes exactly one entry that waits for it out of the
-- table, and leaves as many as before that wait for another one.
pub dispatch_answer-waiting :
    (event : Frame → Event) (frame : Frame) (l : Link) (hash seq : ℕ)
    → l.connected ≡ true
    → is_pending l.pending frame.hash frame.seq ≡ true
    → ◌≢◌ {A = ℕ × ℕ} (hash, seq) (frame.hash, frame.seq)
    → (suc (waiting (dispatch_answer event frame l).1 frame.hash frame.seq)
        ≡ waiting l frame.hash frame.seq)
      × (waiting (dispatch_answer event frame l).1 hash seq ≡ waiting l hash seq)
unfolding cancel_request
dispatch_answer-waiting event frame l hash seq on waits differs =
    let live : (not l.connected || not (is_pending l.pending frame.hash frame.seq)) ≡ false =
      rw (on, waits) refl in
    rw (answer_delivered event frame l live) (
      count-clear_first (same_request frame.hash frame.seq) l.pending waits,
      count-clear_first_other (same_request frame.hash frame.seq) (same_request hash seq) l.pending
          (λ p. apart frame.hash frame.seq hash seq p differs),
    )
