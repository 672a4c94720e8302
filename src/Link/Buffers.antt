-- ===== src/Link/Buffers.antt =====
-- The two buffers of crates/reiny-link/src/link.rs: `tx_consume`, `rx_discard`, `rx_compact`, `drain`,
-- `drain_frame` and `feed`. What a method copies into the caller's `out` is returned as a list.
pub mod Queue
pub mod Feeding
pub mod Accepting
use reiny.Prelude.{
  ℕ, zero, suc, ◌+◌, ◌*◌, ◌-◌, Bool, true, false, Option, none, some, List, [], ◌∷◌, ◌++◌, Bytes,
  length, take, drop, splice, slice, min, ltb, ◌==◌, if◌then◌else◌, any,
}
use mathlib.Core.Option
use reiny.Wire.Types.{delimiter}
use reiny.Link.State.{Env, Link, bump16, bump32}
use reiny.Link.Emit.{ensure_started}

-- `iter().position(|&b| b == DELIMITER)`
unfoldable pub position : Bytes → Option ℕ
position [] = none
position (b ∷ bs) = if b == delimiter then some 0 else Option.map suc (position bs)

-- `buf.copy_within(n..len, 0)`
abbrev pub shift_down : ℕ → ℕ → Bytes → Bytes
shift_down n len buf = splice buf 0 (slice buf n len)

unfoldable pub tx_consume : ℕ → Link → Link
tx_consume n l = record l { tx = shift_down n l.tx_len l.tx; tx_len = l.tx_len - n }

unfoldable pub rx_discard : ℕ → Link → Link
rx_discard n l = record l {
  rx = shift_down n l.rx_len l.rx;
  rx_len = l.rx_len - n;
  rx_generation = bump16 l.rx_generation;
}

unfoldable pub rx_compact : Link → Link
unfolding rx_discard
rx_compact l =
    if l.rx_consumed == 0 then l else rx_discard l.rx_consumed (record l { rx_consumed = 0 })

-- `rx[..rx_len].contains(&DELIMITER)`
abbrev pub has_delimiter : Bytes → Bool
has_delimiter bs = any (λ b. b == delimiter) bs

-- What the loop of `feed` leaves: the link, and the bytes that were not accepted.
abbrev pub Fed : Type 0
Fed = Link × Bytes

-- The buffer is full with no delimiter in it.
abbrev pub overflow : Link → Link
overflow l = record l {
  rx_len = 0;
  rx_skip = true;
  stats = record (l.stats) { rx_overflow = bump32 l.stats.rx_overflow };
}

-- `copy_from_slice(&rest[..n])`
abbrev pub accept : ℕ → Bytes → Link → Link
accept n rest l = record l { rx = splice l.rx l.rx_len (take n rest); rx_len = l.rx_len + n }

-- What one round of the loop of `feed` comes to: a return, or another round.
pub data FeedRound : Type 0 where
  stop : Fed → FeedRound
  more : Link → Bytes → FeedRound

-- Behind an overflow: discard up to the next delimiter.
pub skip_round : Link → Bytes → Option ℕ → FeedRound
skip_round l rest none = stop (l, [])
skip_round l rest (some i) = more (record l { rx_skip = false }) (drop (i + 1) rest)

-- The buffer is full, with a delimiter in it or not.
pub full_round : Link → Bytes → Bool → FeedRound
full_round l rest true = stop (l, rest)
full_round l rest false = more (overflow l) rest

-- There are `free` bytes of room.
pub room_round : Link → Bytes → ℕ → FeedRound
unfolding full_round
room_round l rest free =
    let n = min free (length rest) in
    let full = full_round l rest (has_delimiter (take l.rx_len l.rx)) in
    if free == 0 then full else more (accept n rest l) (drop n rest)

pub feed_round : Link → Bytes → FeedRound
unfolding position skip_round room_round
feed_round l rest =
    if l.rx_skip
    then skip_round l rest (position rest)
    else room_round l rest (length l.rx - l.rx_len)

-- The loop goes on, or returns.
abbrev pub run_on : (Link → Bytes → Option Fed) → FeedRound → Option Fed
run_on again (stop fed) = some fed
run_on again (more l rest) = again l rest

-- The loop of `feed`; `none` means that the rounds ran out.
pub feed_loop : ℕ → Link → Bytes → Option Fed
unfolding feed_round
feed_loop fuel l [] = some (l, [])
feed_loop zero l (b ∷ bs) = none
feed_loop (suc fuel) l (b ∷ bs) = run_on (λ l' rest. feed_loop fuel l' rest) (feed_round l (b ∷ bs))

-- A round takes bytes, except one that turns skipping on, and such a round is followed by one that
-- takes bytes.
abbrev pub feed_rounds : Bytes → ℕ
feed_rounds bytes = 2 * length bytes + 1

module _ (env : Env) where
  -- `feed` returns how many of the bytes were accepted.
  unfoldable pub feed : Bytes → Link → Option (ℕ × Link)
  unfolding feed_loop
  feed bytes l =
      Option.map (λ (fed : Fed). (length bytes - length fed.1, fed.0))
        (feed_loop (feed_rounds bytes) (rx_compact (ensure_started env l)) bytes)

  -- `drain`, into an `out` of `room` bytes.
  unfoldable pub drain : ℕ → Link → Bytes × Link
  drain room l =
      let l' = ensure_started env l in let n = min l'.tx_len room in (take n l'.tx, tx_consume n l')

  -- Behind the search for the delimiter.
  drain_to : ℕ → ℕ → Link → Option Bytes × Link
  unfolding tx_consume
  drain_to end room l =
      let dropped = tx_consume end l in
      if ltb room end
      then (
        none,
        record dropped {
          stats = record (dropped.stats) { tx_full = bump32 dropped.stats.tx_full };
        },
      )
      else (some (take end l.tx), dropped)

  drain_first : ℕ → Link → Option Bytes × Link
  unfolding drain_to
  drain_first room l = elim (position (take l.tx_len l.tx)) [
    | none ↦ (none, l)
    | some i ↦ drain_to (i + 1) room l
  ]

  unfoldable pub drain_frame : ℕ → Link → Option Bytes × Link
  unfolding drain_first
  drain_frame room l = drain_first room (ensure_started env l)
