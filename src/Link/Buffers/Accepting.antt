-- ===== src/Link/Buffers/Accepting.antt =====
-- `feed` with room for all of its bytes: they go behind what was received.
use reiny.Prelude.{
  ℕ, zero, suc, ◌+◌, ◌-◌, ◌≤◌, ◌<◌, ◌≡◌, refl, sym, ap, ◌∙◌, arith, Bool, true, false, some, [],
  ◌∷◌, ◌++◌, append-nil, Bytes, length, take, drop, min, ◌==◌, length-take, take-append_add,
  take-append_length, take-all, drop-all, if◌then◌else◌,
}
use mathlib.Core.Option
use reiny.Link.State.{Env, Link}
use reiny.Link.Emit.{ensure_started}
use reiny.Link.Emit.Untouched.{Kept, kept, ensure_started-Untouched}
use reiny.Link.Buffers.{
  Fed, accept, feed_loop, feed_rounds, feed_round, run_on, skip_round, position, more, room_round,
  rx_compact, rx_discard, feed,
}
use reiny.Link.Buffers.Feeding.{received}

received-accept :
    (rest : Bytes) (l : Link)
    → l.rx_len + length rest ≤ length l.rx
    → received (accept (length rest) rest l) ≡ received l ++ rest
received-accept rest l h =
    let width : l.rx_len + length rest ≡ length (received l) + length rest =
      omega (arith, length-take l.rx_len l.rx) in
    let all_taken : take (length rest) rest ≡ rest = take-all rest (length rest) (omega arith) in
    rw (all_taken, width)
      (take-append_add (received l) (rest ++ drop (length (received l) + length rest) l.rx)
          (length rest)
        ∙ ap (λ (b : Bytes). received l ++ b) (take-append_length rest _ (length rest) refl))

room_round-all :
    (rest : Bytes) (l : Link)
    → 0 < length rest
    → l.rx_len + length rest ≤ length l.rx
    → room_round l rest (length l.rx - l.rx_len) ≡ more (accept (length rest) rest l) []
unfolding room_round
room_round-all rest l some_left h =
    let least : min (length l.rx - l.rx_len) (length rest) ≡ length rest = omega arith in
    let room : (length l.rx - l.rx_len == 0) ≡ false = ground arith in
    rw (room, least, drop-all rest (length rest) (omega arith)) refl

feed_loop-all :
    (fuel : ℕ) (bytes : Bytes) (l : Link)
    → 0 < fuel
    → 0 < length bytes
    → l.rx_skip ≡ false
    → l.rx_len + length bytes ≤ length l.rx
    → feed_loop fuel l bytes ≡ some (accept (length bytes) bytes l, [])
unfolding feed_loop feed_round
feed_loop-all zero bytes l f some_left open_ h = absurd (omega arith)
feed_loop-all (suc fuel) [] l f some_left open_ h = absurd (omega arith)
feed_loop-all (suc fuel) (b ∷ bs) l f some_left open_ h =
    ap (run_on (λ l' rest. feed_loop fuel l' rest)) round
  where
    bytes : Bytes
    bytes = b ∷ bs

    round : feed_round l (b ∷ bs) ≡ more (accept (length bytes) bytes l) []
    round =
        ap
          (λ (skip : Bool).
            if skip
            then skip_round l bytes (position bytes)
            else room_round l bytes (length l.rx - l.rx_len))
          open_
        ∙ room_round-all bytes l some_left h

pub compact_none : (l : Link) → l.rx_consumed ≡ 0 → rx_compact l ≡ l
unfolding rx_compact
compact_none l none_out =
    let none_there : (l.rx_consumed == 0) ≡ true = ground arith in
    ap (λ (b : Bool). if b then l else rx_discard l.rx_consumed (record l { rx_consumed = 0 }))
      none_there

-- While the link is not skipping and has handed out no frame, bytes for which there is room are
-- accepted all and stand behind what was received.
pub feed_appends :
    (env : Env) (bytes : Bytes) (l : Link)
    → l.rx_skip ≡ false
    → l.rx_consumed ≡ 0
    → l.rx_len + length bytes ≤ length l.rx
    → (l' : Link) × ((feed env bytes l ≡ some (length bytes, l'))
        × (received l' ≡ received l ++ bytes))
unfolding feed
feed_appends env [] l open_ none_out h = (
  begun,
  (
    ap (λ m. Option.map counted (feed_loop (feed_rounds []) m [])) quiet,
    ap (λ (k : Kept). take k.rx_len k.rx) same ∙ sym (append-nil (received l)),
  ),
)
  where
    begun : Link
    begun = ensure_started env l

    counted : Fed → ℕ × Link
    counted fed = (0 - length fed.1, fed.0)

    same : kept begun ≡ kept l
    same = ensure_started-Untouched env l

    quiet : rx_compact begun ≡ begun
    quiet = compact_none begun (ap (λ (k : Kept). k.rx_consumed) same ∙ none_out)
feed_appends env (b ∷ bs) l open_ none_out h = (
  accept (length bytes) bytes begun,
  (
    ap (λ m. Option.map counted (feed_loop (feed_rounds bytes) m bytes)) quiet
        ∙ ap (Option.map counted) (
            feed_loop-all (feed_rounds bytes) bytes begun (omega arith) (omega arith)
              (ap (λ (k : Kept). k.rx_skip) same ∙ open_) room)
        ∙ ap (λ (n : ℕ). some (n, accept (length bytes) bytes begun))
            (let whole : length bytes - 0 ≡ length bytes = omega arith in whole),
    received-accept bytes begun room ∙ ap (λ (k : Kept). take k.rx_len k.rx ++ bytes) same,
  ),
)
  where
    begun : Link
    begun = ensure_started env l

    bytes : Bytes
    bytes = b ∷ bs

    counted : Fed → ℕ × Link
    counted fed = (length bytes - length fed.1, fed.0)

    same : kept begun ≡ kept l
    same = ensure_started-Untouched env l

    quiet : rx_compact begun ≡ begun
    quiet = compact_none begun (ap (λ (k : Kept). k.rx_consumed) same ∙ none_out)

    room : begun.rx_len + length bytes ≤ length begun.rx
    room = omega (arith, h, ap (λ (k : Kept). k.rx_len) same, ap (λ (k : Kept). length k.rx) same)
