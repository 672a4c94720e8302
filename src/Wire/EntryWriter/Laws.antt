-- ===== src/Wire/EntryWriter/Laws.antt =====
-- The bytes of an entry, which `write_entry` writes wherever they fit.
use reiny.Prelude.{
  ℕ, ◌<◌, Option, none, some, List, [], ◌∷◌, ◌++◌, Bytes, All, bit_or, length, is_some, to_le_bytes,
  lt→ltb,
}
use reiny.Wire.Types.{flag_schema_fingerprint}
use reiny.Wire.Table.{EndpointRef, HelloType, HelloEntry}
use reiny.Wire.EntryReader.{sources_iter}
use reiny.Wire.EntryWriter.{bool_byte, write_response, write_sources, write_count, write_entry}
use reiny.Wire.Writer.{write_u8, write_u32, write_u64, write_str}
use reiny.Wire.Writer.Laws.{str_bytes, Writes, Writes-then, Writes-bytes, Writes-done, Writes-str}

abbrev pub IsShort : Bytes → Type 0
IsShort s = length s < 256

abbrev pub response_bytes : Option HelloType → Bytes
response_bytes none = []
response_bytes (some response) = str_bytes response.name ++ to_le_bytes 8 response.schema

abbrev pub source_bytes : EndpointRef → Bytes
source_bytes s = str_bytes s.namespace ++ str_bytes s.port

abbrev pub sources_bytes : List EndpointRef → Bytes
sources_bytes [] = []
sources_bytes (s ∷ rest) = str_bytes s.namespace ++ (str_bytes s.port ++ sources_bytes rest)

-- hash, flags, port, name, schema, response, sources
abbrev pub entry_bytes : HelloEntry → Bytes
entry_bytes e =
    to_le_bytes 4 e.hash
    ++ ((bit_or e.flags flag_schema_fingerprint ∷ [])
        ++ (str_bytes e.port
            ++ (str_bytes e.name
                ++ (to_le_bytes 8 e.schema
                    ++ ((bool_byte (is_some e.response) ∷ [])
                        ++ (response_bytes e.response
                            ++ ((length (sources_iter e.sources) ∷ [])
                                ++ sources_bytes (sources_iter e.sources))))))))

abbrev pub ResponseFits : Option HelloType → Type 0
ResponseFits none = Unit {0}
ResponseFits (some r) = IsShort r.name

abbrev pub SourceFits : EndpointRef → Type 0
SourceFits s = IsShort s.namespace × IsShort s.port

-- Every length of the entry fits its byte.
pub record EntryFits (e : HelloEntry) : Type 0 where
  pub port_fits : IsShort e.port
  pub name_fits : IsShort e.name
  pub response_fits : ResponseFits e.response
  pub count_fits : length (sources_iter e.sources) < 256
  pub sources_fit : All SourceFits (sources_iter e.sources)

Writes-response :
    (r : Option HelloType) → ResponseFits r → Writes (write_response r) (response_bytes r)
unfolding write_response
Writes-response none h = Writes-done
Writes-response (some r) h =
    Writes-then (write_str r.name) (write_u64 r.schema) _ _ (Writes-str r.name h) (Writes-bytes _)

Writes-sources :
    (s : List EndpointRef) → All SourceFits s → Writes (write_sources s) (sources_bytes s)
unfolding write_sources
Writes-sources [] h = Writes-done
Writes-sources (s ∷ rest) (h, hs) =
    Writes-then (write_str s.namespace) _ _ _ (Writes-str s.namespace h.0) (
      Writes-then (write_str s.port) (write_sources rest) _ _ (Writes-str s.port h.1)
        (Writes-sources rest hs))

Writes-count : (n : ℕ) → n < 256 → Writes (write_count n) (n ∷ [])
unfolding write_count
Writes-count n h front out fits = rw (lt→ltb n 256 h) (Writes-bytes (n ∷ []) front out fits)

-- `write_entry` writes the bytes of the entry, whatever stands in front.
pub Writes-entry : (e : HelloEntry) → EntryFits e → Writes (write_entry e) (entry_bytes e)
unfolding write_entry
Writes-entry e h = Writes-then (write_u32 e.hash) _ _ _ (Writes-bytes _) (
    Writes-then (write_u8 _) _ _ _ (Writes-bytes _) (
      Writes-then (write_str e.port) _ _ _ (Writes-str e.port h.port_fits) (
        Writes-then (write_str e.name) _ _ _ (Writes-str e.name h.name_fits) (
          Writes-then (write_u64 e.schema) _ _ _ (Writes-bytes _) (
            Writes-then (write_u8 _) _ _ _ (Writes-bytes _) (
              Writes-then (write_response e.response) _ _ _
                (Writes-response e.response h.response_fits)
                (Writes-then (write_count _) _ _ _ (Writes-count _ h.count_fits)
                  (Writes-sources _ h.sources_fit))))))))
