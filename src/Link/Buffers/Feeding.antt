-- ===== src/Link/Buffers/Feeding.antt =====
-- The loop of `feed`: its rounds are enough, it stays inside the buffer, and bytes for which there is
-- room go behind what was received.
use reiny.Prelude.{
  ℕ, zero, suc, ◌+◌, ◌-◌, ◌*◌, ◌≤◌, ◌<◌, ◌≡◌, refl, ap, ◌∙◌, arith, inl, inr, Bool, true, false,
  Bool-cases, Option, none, some, [], ◌∷◌, Bytes, length, take, drop, slice, min, ◌==◌, length-take,
  length-drop, length-splice, if◌then◌else◌,
}
use mathlib.Core.Option
use reiny.Link.State.{Env, Link}
use reiny.Link.Emit.{ensure_started}
use reiny.Link.Emit.Untouched.{Kept, ensure_started-Untouched}
use reiny.Link.Buffers.{
  position, Fed, accept, feed_loop, run_on, feed_rounds, FeedRound, stop, more, skip_round,
  full_round, room_round, feed_round, rx_compact, rx_discard, feed, shift_down,
}

-- What was received and not consumed.
abbrev pub received : Link → Bytes
received l = take l.rx_len l.rx

-- Rounds that are left at most.
abbrev rounds_left : Link → Bytes → ℕ
rounds_left l bytes = 2 * length bytes + (if l.rx_skip then 0 else 1)

-- What the loop comes to: a link that keeps its buffer and stays inside it.
record Fits (l : Link) (bytes : Bytes) (fed : Fed) : Type 0 where
  within : fed.0.rx_len ≤ length fed.0.rx
  size : length fed.0.rx ≡ length l.rx
  no_more : length fed.1 ≤ length bytes

abbrev Advances : Link → Bytes → FeedRound → Type 0
Advances l bytes (stop fed) = Fits l bytes fed
Advances l bytes (more l' rest) =
    (l'.rx_len ≤ length l'.rx)
    × (length l'.rx ≡ length l.rx)
    × (length rest ≤ length bytes)
    × (rounds_left l' rest < rounds_left l bytes)

length-accept :
    (n : ℕ) (rest : Bytes) (l : Link)
    → l.rx_len + n ≤ length l.rx
    → n ≤ length rest
    → length (accept n rest l).rx ≡ length l.rx
length-accept n rest l h k =
    length-splice l.rx l.rx_len (take n rest) (omega (arith, length-take n rest))

skip_round-Advances :
    (l : Link) (rest : Bytes) (found : Option ℕ)
    → l.rx_skip ≡ true
    → 0 < length rest
    → l.rx_len ≤ length l.rx
    → Advances l rest (skip_round l rest found)
unfolding skip_round
skip_round-Advances l rest none skip some_left h = record {
  within = h;
  size = refl;
  no_more = omega arith;
}
skip_round-Advances l rest (some i) skip some_left h = (
  h,
  refl,
  omega (arith, length-drop (i + 1) rest),
  rw skip (omega (arith, length-drop (i + 1) rest)),
)

full_round-Advances :
    (l : Link) (rest : Bytes) (delimited : Bool)
    → l.rx_skip ≡ false
    → l.rx_len ≤ length l.rx
    → Advances l rest (full_round l rest delimited)
unfolding full_round
full_round-Advances l rest true open_ h = record { within = h; size = refl; no_more = omega arith }
full_round-Advances l rest false open_ h = (omega arith, refl, omega arith, rw open_ (omega arith))

accept-Advances :
    (n : ℕ) (rest : Bytes) (l : Link)
    → l.rx_skip ≡ false
    → 0 < n
    → n ≤ length rest
    → l.rx_len + n ≤ length l.rx
    → Advances l rest (more (accept n rest l) (drop n rest))
accept-Advances n rest l open_ positive here fits = (
  omega (arith, length-accept n rest l fits here),
  length-accept n rest l fits here,
  omega (arith, length-drop n rest),
  rw open_ (omega (arith, length-drop n rest)),
)

room_round-Advances :
    (l : Link) (rest : Bytes)
    → l.rx_skip ≡ false
    → 0 < length rest
    → l.rx_len ≤ length l.rx
    → Advances l rest (room_round l rest (length l.rx - l.rx_len))
unfolding room_round
room_round-Advances l rest open_ some_left h = elim (Bool-cases (length l.rx - l.rx_len == 0)) [
  | inl e ↦ rw e (full_round-Advances l rest _ open_ h)
  | inr e ↦ rw e (
      accept-Advances (min (length l.rx - l.rx_len) (length rest)) rest l open_
        (omega (arith, positive e)) (omega arith) (omega arith))
]
  where
    positive : (length l.rx - l.rx_len == 0) ≡ false → 0 < length l.rx - l.rx_len
    positive e = ground arith

feed_round-Advances :
    (l : Link) (b : ℕ) (bs : Bytes)
    → l.rx_len ≤ length l.rx
    → Advances l (b ∷ bs) (feed_round l (b ∷ bs))
unfolding feed_round
feed_round-Advances l b bs h = by_skip l.rx_skip refl
  where
    by_skip :
        (skip : Bool)
        → l.rx_skip ≡ skip
        → Advances l (b ∷ bs) (
            if skip
            then skip_round l (b ∷ bs) (position (b ∷ bs))
            else room_round l (b ∷ bs) (length l.rx - l.rx_len))
    by_skip true e = skip_round-Advances l (b ∷ bs) (position (b ∷ bs)) e (omega arith) h
    by_skip false e = room_round-Advances l (b ∷ bs) e (omega arith) h

abbrev Ends : Link → Bytes → Option Fed → Type 0
Ends l bytes result = (fed : Fed) × ((result ≡ some fed) × Fits l bytes fed)

Fits-trans :
    (l l' : Link) (bytes rest : Bytes) (fed : Fed)
    → length l'.rx ≡ length l.rx
    → length rest ≤ length bytes
    → Fits l' rest fed
    → Fits l bytes fed
Fits-trans l l' bytes rest fed same shorter f = record {
  within = f.within;
  size = f.size ∙ same;
  no_more = omega arith;
}

run_on-Ends :
    (fuel : ℕ) (l : Link) (bytes : Bytes) (round : FeedRound)
    → Advances l bytes round
    → rounds_left l bytes ≤ suc fuel
    → ((l' : Link) (rest : Bytes)
        → l'.rx_len ≤ length l'.rx
        → rounds_left l' rest ≤ fuel
        → Ends l' rest (feed_loop fuel l' rest))
    → Ends l bytes (run_on (λ l' rest. feed_loop fuel l' rest) round)
run_on-Ends fuel l bytes (stop fed) fits k later = (fed, (refl, fits))
run_on-Ends fuel l bytes (more l' rest) (within, same, shorter, fewer) k later =
    let ended = later l' rest within (omega arith) in
    (ended.0, (ended.1.0, Fits-trans l l' bytes rest ended.0 same shorter ended.1.1))

feed_loop-Ends :
    (fuel : ℕ) (l : Link) (bytes : Bytes)
    → l.rx_len ≤ length l.rx
    → rounds_left l bytes ≤ fuel
    → Ends l bytes (feed_loop fuel l bytes)
unfolding feed_loop
feed_loop-Ends fuel l [] h k =
    ((l, []), (refl, record { within = h; size = refl; no_more = omega arith }))
feed_loop-Ends zero l (b ∷ bs) h k = absurd (omega arith)
feed_loop-Ends (suc fuel) l (b ∷ bs) h k =
    run_on-Ends fuel l (b ∷ bs) (feed_round l (b ∷ bs)) (feed_round-Advances l b bs h) k
      (feed_loop-Ends fuel)

rounds_left_le : (l : Link) (bytes : Bytes) → rounds_left l bytes ≤ feed_rounds bytes
rounds_left_le l bytes = by_skip l.rx_skip
  where
    by_skip : (b : Bool) → 2 * length bytes + (if b then 0 else 1) ≤ feed_rounds bytes
    by_skip true = omega arith
    by_skip false = omega arith

length-shift_down :
    (n len : ℕ) (buf : Bytes) → len ≤ length buf → length (shift_down n len buf) ≡ length buf
length-shift_down n len buf h =
    length-splice buf 0 (slice buf n len)
      (omega (arith, length-take (len - n) (drop n buf), length-drop n buf))

abbrev Compacted : Link → Link → Type 0
Compacted l l' =
    (l'.rx_len ≤ length l'.rx)
    × (length l'.rx ≡ length l.rx)
    × (l'.rx_consumed ≡ 0)
    × (l'.rx_skip ≡ l.rx_skip)

rx_compact_lem : (l : Link) → l.rx_len ≤ length l.rx → Compacted l (rx_compact l)
unfolding rx_compact
rx_compact_lem l h = by_consumed (l.rx_consumed == 0) refl
  where
    by_consumed :
        (b : Bool)
        → (l.rx_consumed == 0) ≡ b
        → Compacted l (if b then l else rx_discard l.rx_consumed (record l { rx_consumed = 0 }))
    by_consumed true e = (h, refl, ground arith, refl)
    by_consumed false e =
        let size = length-shift_down l.rx_consumed l.rx_len l.rx h in
        (omega (arith, size), size, refl, refl)

-- On a link that holds no more than its receive buffer, `feed` always returns, whatever it is given:
-- it accepts no more than it was offered, and leaves the buffer of its size and holding no more than
-- that.
pub feed_returns :
    (env : Env) (bytes : Bytes) (l : Link)
    → l.rx_len ≤ length l.rx
    → (r : ℕ × Link) × ((feed env bytes l ≡ some r)
        × ((r.0 ≤ length bytes) × (r.1.rx_len ≤ length r.1.rx) × (length r.1.rx ≡ length l.rx)))
unfolding feed
feed_returns env bytes l h = fed_within (
    feed_loop-Ends (feed_rounds bytes) (rx_compact begun) bytes compact.0
      (rounds_left_le (rx_compact begun) bytes))
  where
    begun : Link
    begun = ensure_started env l

    same_rx : begun.rx ≡ l.rx
    same_rx = ap (λ (k : Kept). k.rx) (ensure_started-Untouched env l)

    same_rx_len : begun.rx_len ≡ l.rx_len
    same_rx_len = ap (λ (k : Kept). k.rx_len) (ensure_started-Untouched env l)

    compact : Compacted begun (rx_compact begun)
    compact = rx_compact_lem begun (rw (same_rx, same_rx_len) h)

    fed_within :
        Ends (rx_compact begun) bytes (feed_loop (feed_rounds bytes) (rx_compact begun) bytes)
        → (r : ℕ × Link) × ((feed env bytes l ≡ some r)
            × ((r.0 ≤ length bytes) × (r.1.rx_len ≤ length r.1.rx) × (length r.1.rx ≡ length l.rx)))
    fed_within (fed, (e, fits)) = (
      (length bytes - length fed.1, fed.0),
      (
        ap (Option.map (λ (fed : Fed). (length bytes - length fed.1, fed.0))) e,
        (omega arith, fits.within, fits.size ∙ compact.1 ∙ ap length same_rx),
      ),
    )
