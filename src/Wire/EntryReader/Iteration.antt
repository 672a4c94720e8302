-- ===== src/Wire/EntryReader/Iteration.antt =====
-- The iterator over source bytes gives the list that was written, and its rounds are enough.
use reiny.Prelude.{
  ℕ, zero, suc, ◌+◌, ◌≤◌, ◌≡◌, refl, sym, ap, ◌∙◌, arith, none, List, [], ◌∷◌, ◌++◌, All, length,
  lt→ltb, length-append, length-drop, append_assoc,
}
use reiny.Wire.Table.{EndpointRef, from_wire}
use reiny.Wire.Reader.{Reader, read_bytes, read_str}
use reiny.Wire.Reader.Laws.{Ahead, skip, Ahead-skip, Reads, Reads-bind, Reads-map, Reads-str}
use reiny.Wire.Writer.Laws.{str_bytes}
use reiny.Wire.EntryReader.{read_source, read_sources, sources_iter}
use reiny.Wire.EntryReader.Laws.{IsTextSource}
use reiny.Wire.EntryWriter.Laws.{source_bytes, sources_bytes}

Reads-source : (s : EndpointRef) → IsTextSource s → Reads read_source (source_bytes s) s
unfolding read_source
Reads-source s h =
    Reads-bind read_str _ (str_bytes s.namespace) (str_bytes s.port) s.namespace s
      (Reads-str s.namespace h.0)
      (Reads-map read_str _ (str_bytes s.port) s.port (Reads-str s.port h.1))

read_source_end : (r : Reader) → length r.buf ≤ r.pos → read_source r ≡ none
unfolding read_source read_str read_bytes
read_source_end r h = rw (lt→ltb (length r.buf) (r.pos + 1) (omega arith))

read_sources-sources_bytes :
    (fuel : ℕ) (s : List EndpointRef) (r : Reader)
    → All IsTextSource s
    → Ahead r (sources_bytes s)
    → length (sources_bytes s) ≤ fuel
    → read_sources fuel r ≡ s
unfolding read_sources
read_sources-sources_bytes zero [] r h a l = refl
read_sources-sources_bytes (suc fuel) [] r h a l =
    rw (read_source_end r (omega (arith, length-drop r.pos r.buf, ap length (a.0))), read_sources)
read_sources-sources_bytes zero (s ∷ rest) r h a l = absurd (omega arith)
read_sources-sources_bytes (suc fuel) (s ∷ rest) r h a l =
    rw (Reads-source s h.0 r (sources_bytes rest) next, read_sources)
      (ap (λ (t : List EndpointRef). s ∷ t)
        (read_sources-sources_bytes fuel rest (skip (length (source_bytes s)) r) h.1
          (Ahead-skip r (source_bytes s) (sources_bytes rest) next) shorter))
  where
    next : Ahead r (source_bytes s ++ sources_bytes rest)
    next = (
      a.0 ∙ sym (append_assoc (str_bytes s.namespace) (str_bytes s.port) (sources_bytes rest)),
      a.1,
    )

    shorter : length (sources_bytes rest) ≤ fuel
    shorter = omega (
      arith,
      length-append s.namespace (str_bytes s.port ++ sources_bytes rest),
      length-append s.port (sources_bytes rest),
    )

-- A list of sources whose strings are UTF-8 iterates off the wire as the list that was written.
pub sources_iter-sources_bytes :
    (s : List EndpointRef) → All IsTextSource s → sources_iter (from_wire (sources_bytes s)) ≡ s
unfolding sources_iter
sources_iter-sources_bytes s h =
    read_sources-sources_bytes (length (sources_bytes s)) s _ h (refl, omega arith) (omega arith)
