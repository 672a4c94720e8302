-- ===== src/Link/Handshake/Outcome.antt =====
-- `on_hello` of crates/reiny-link/src/link.rs: what a Hello that holds, and one that does not, make of
-- the connection.
use reiny.Prelude.{
  ◌+◌, ◌≡◌, refl, true, false, not, ◌||◌, Option, none, some, Result, ok, err, Bytes, replicate,
  slice, if◌then◌else◌,
}
use reiny.Wire.Types.{header_len}
use reiny.Link.State.{
  Env, Link, Frame, Event, Error, table_full, PeerContract, connected_event, disconnected_event,
}
use reiny.Link.Handshake.{count_overflow}

-- What a Hello that is accepted leaves, and one that is not.
abbrev pub IsConnected : Env → PeerContract → Frame → Link → Option Event × Link → Type 0
IsConnected env contract frame l (event, l') =
    (l'.connected ≡ true)
    × (l'.peer ≡ some contract.peer)
    × (l'.remote ≡ contract.remote)
    × (l'.pending ≡ l.pending)
    × (event ≡ (if not contract.ack || not l.connected then some (connected_event frame) else none))

abbrev pub IsCleared : Env → Link → Option Event × Link → Type 0
IsCleared env l (event, l') =
    (l'.connected ≡ false)
    × (l'.peer ≡ none)
    × (l'.remote ≡ replicate env.n none)
    × (l'.pending ≡ replicate env.n none)
    × (event ≡ (if l.connected then some disconnected_event else none))

abbrev Outcome : Env → Result Error PeerContract → Frame → Link → Option Event × Link → Type 0
Outcome env (ok contract) frame l result = IsConnected env contract frame l result
Outcome env (err e) frame l result = IsCleared env l result

-- The payload of the frame.
abbrev pub hello_of : Frame → Link → Bytes
hello_of frame l = slice l.rx header_len (header_len + frame.len)

module _ (env : Env) where
  count_overflow-connected :
      (e : Error) (l : Link) → (count_overflow env e l).connected ≡ l.connected
  count_overflow-connected table_full l = refl
  count_overflow-connected e l = refl
