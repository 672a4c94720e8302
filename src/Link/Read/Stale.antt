-- ===== src/Link/Read/Stale.antt =====
-- A frame's handle in crates/reiny-link/src/link.rs does not outlive the bytes that it is about.
use reiny.Prelude.{
  ℕ, ◌+◌, ◌^◌, ◌<◌, ◌≡◌, refl, ap, ◌∙◌, arith, Bool, true, false, Bytes, [], ◌==◌, ==_refl,
  if◌then◌else◌, slice,
}
use reiny.Wire.Types.{header_len}
use reiny.Link.State.{Link, Frame, bump16}
use reiny.Link.Buffers.{rx_compact, rx_discard}
use reiny.Link.Read.{payload}

abbrev payload_at : Bytes → ℕ → Frame → Bytes
payload_at rx generation frame =
    if frame.generation == generation then slice rx header_len (header_len + frame.len) else []

bump16-differs : (g : ℕ) → g < 2 ^ 16 → (g == bump16 g) ≡ false
bump16-differs g h = ground arith

payload-rx_discard :
    (n : ℕ) (l : Link) (frame : Frame)
    → l.rx_generation < 2 ^ 16
    → frame.generation ≡ l.rx_generation
    → payload (rx_discard n l) frame ≡ []
unfolding payload rx_discard
payload-rx_discard n l frame range fresh =
    let moved : (frame.generation == bump16 l.rx_generation) ≡ false =
      rw fresh (bump16-differs l.rx_generation range) in
    rw moved refl

-- A handle of the current generation reads the payload that stands in the receive buffer, and behind
-- a compaction that takes bytes out of the buffer the same handle reads as an empty payload.
pub rx_compact-stale :
    (l : Link) (frame : Frame)
    → 0 < l.rx_consumed
    → l.rx_generation < 2 ^ 16
    → frame.generation ≡ l.rx_generation
    → (payload l frame ≡ slice l.rx header_len (header_len + frame.len))
      × (payload (rx_compact l) frame ≡ [])
unfolding payload rx_compact
rx_compact-stale l frame some_out range fresh =
    let out : (l.rx_consumed == 0) ≡ false = ground arith in
    let same : (frame.generation == l.rx_generation) ≡ true = rw fresh (==_refl l.rx_generation) in
    (
      ap (λ (b : Bool). if b then slice l.rx header_len (header_len + frame.len) else []) same,
      ap
            (λ (b : Bool).
              payload (if b then l else rx_discard l.rx_consumed (record l { rx_consumed = 0 }))
                frame)
            out
          ∙ payload-rx_discard l.rx_consumed (record l { rx_consumed = 0 }) frame range fresh,
    )
