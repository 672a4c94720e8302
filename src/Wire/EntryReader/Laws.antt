-- ===== src/Wire/EntryReader/Laws.antt =====
-- `read_entry` reads back what `write_entry` wrote.
use reiny.Prelude.{
  ltb, ltb→lt, ℕ, ◌+◌, ◌-◌, ◌≡◌, refl, ap, arith, Bool, true, false, Option, none, some, List, [],
  ◌∷◌, ◌++◌, Bytes, All, bit_or, bit_and, length, is_some, to_le_bytes, IsU32, IsU64, IsByte,
  all_below, all_below_sound, ◌==◌, if◌then◌else◌, take-append_length,
}
use reiny.Wire.Types.{flag_schema_fingerprint}
use reiny.Wire.Text.{from_utf8}
use reiny.Wire.Table.{EndpointRef, HelloType, HelloEntry, from_wire}
use reiny.Wire.EntryReader.{
  sources_iter, read_flags, read_response, read_hello_type, skip_sources, read_entry, position,
  between,
}
use reiny.Wire.EntryWriter.{bool_byte}
use reiny.Wire.EntryWriter.Laws.{EntryFits, entry_bytes, sources_bytes, response_bytes}
use reiny.Wire.Writer.Laws.{str_bytes}
use reiny.Wire.Reader.{Read, ◌>>=◌, ◌>>◌, give, read_u8, read_u32, read_u64, read_str}
use reiny.Wire.Reader.Laws.{
  skip, Reads, Reads-bind, Reads-map, Reads-give, Reads-u8, Reads-u32, Reads-u64, Reads-str,
}

-- A string that the language's `str` can hold.
abbrev pub IsText : Bytes → Type 0
IsText s = from_utf8 s ≡ some s

abbrev pub IsTextResponse : Option HelloType → Type 0
IsTextResponse none = Unit {0}
IsTextResponse (some r) = IsText r.name × IsU64 r.schema

abbrev pub IsTextSource : EndpointRef → Type 0
IsTextSource s = IsText s.namespace × IsText s.port

-- An entry whose fields lie in their machine types, and whose lengths fit their bytes on the wire.
pub record IsEntry (e : HelloEntry) : Type 0 where
  pub hash_range : IsU32 e.hash
  pub flags_range : IsByte e.flags
  pub port_text : IsText e.port
  pub name_text : IsText e.name
  pub schema_range : IsU64 e.schema
  pub response_text : IsTextResponse e.response
  pub sources_text : All IsTextSource (sources_iter e.sources)
  pub fits : EntryFits e

-- The mark is set by the writer, and the reader demands it and takes it off.
abbrev pub unmarked : ℕ → ℕ
unmarked f = bit_and f 239

marked : ℕ → Bool
marked f = if bit_and (bit_or f 16) 16 == 0 then false else bit_and (bit_or f 16) 239 == unmarked f

marked_table : all_below 256 marked ≡ true
unfolding all_below marked
marked_table = refl

byte_unmarked : ℕ → Bool
byte_unmarked f = ltb (unmarked f) 256

byte_unmarked_table : all_below 256 byte_unmarked ≡ true
unfolding all_below byte_unmarked
byte_unmarked_table = refl

pub unmarked-IsByte : (f : ℕ) → IsByte f → IsByte (unmarked f)
unfolding byte_unmarked
unmarked-IsByte f range =
    ltb→lt (unmarked f) 256 (all_below_sound 256 byte_unmarked f byte_unmarked_table range)

Reads-flags :
    (f : ℕ) → IsByte f → Reads read_flags (bit_or f flag_schema_fingerprint ∷ []) (unmarked f)
unfolding read_flags marked
Reads-flags f range r rest h =
    let fact = all_below_sound 256 marked f marked_table range in
    rw (Reads-u8 (bit_or f flag_schema_fingerprint) r rest h) (ground (arith, fact))

Reads-response :
    (o : Option HelloType)
    → IsTextResponse o
    → Reads read_response ((bool_byte (is_some o) ∷ []) ++ response_bytes o) o
unfolding read_response read_hello_type
Reads-response none h = Reads-bind read_u8 _ (0 ∷ []) [] 0 none (Reads-u8 0) (Reads-give none)
Reads-response (some o) h =
    Reads-bind read_u8 _ (1 ∷ []) (str_bytes o.name ++ to_le_bytes 8 o.schema) 1 (some o)
      (Reads-u8 1)
      (Reads-bind read_str _ (str_bytes o.name) (to_le_bytes 8 o.schema) o.name (some o)
        (Reads-str o.name h.0)
        (Reads-map read_u64 _ (to_le_bytes 8 o.schema) o.schema (Reads-u64 o.schema h.1)))

Reads-skip_sources :
    (s : List EndpointRef)
    → All IsTextSource s
    → Reads (skip_sources (length s)) (sources_bytes s) tt
unfolding skip_sources
Reads-skip_sources [] h = Reads-give tt
Reads-skip_sources (s ∷ rest) (h, hs) =
    Reads-bind read_str _ (str_bytes s.namespace) (str_bytes s.port ++ sources_bytes rest)
      s.namespace tt (Reads-str s.namespace h.0)
      (Reads-bind read_str _ (str_bytes s.port) (sources_bytes rest) s.port tt
        (Reads-str s.port h.1) (Reads-skip_sources rest hs))

-- The entry as it comes off the wire: its sources are the bytes that were written, and its flags are
-- without the mark.
abbrev pub received : HelloEntry → HelloEntry
received e = record e {
  flags = unmarked e.flags;
  sources = from_wire (sources_bytes (sources_iter e.sources));
}

-- The end of `read_entry`, behind the count.
abbrev read_tail : HelloEntry → ℕ → Read HelloEntry
read_tail e count = position >>= λ start.
    skip_sources count
    >> (position >>= λ end. between start end >>= λ sources.
        give (record e { flags = unmarked e.flags; sources = sources }))

Reads-tail :
    (e : HelloEntry)
    → All IsTextSource (sources_iter e.sources)
    → Reads
        (read_tail e (length (sources_iter e.sources)))
        (sources_bytes (sources_iter e.sources))
        (received e)
Reads-tail e h r rest ahead =
    let s = sources_iter e.sources in
    let n = length (sources_bytes s) in
    let width : r.pos + n - r.pos ≡ n = omega arith in
    rw (Reads-skip_sources s h r rest ahead) (
      ap
        (λ (b : Bytes).
          some (record e { flags = unmarked e.flags; sources = from_wire b }, skip n r))
        (rw (width, ahead.0) (take-append_length (sources_bytes s) rest n refl)))

-- Wherever the bytes of an entry stand, `read_entry` reads that entry and nothing behind it.
pub Reads-entry : (e : HelloEntry) → IsEntry e → Reads read_entry (entry_bytes e) (received e)
unfolding read_entry
Reads-entry e h =
    Reads-bind read_u32 _ (to_le_bytes 4 e.hash) after_hash e.hash x (Reads-u32 e.hash h.hash_range)
      (Reads-bind read_flags _ (bit_or e.flags flag_schema_fingerprint ∷ []) after_flags
        (unmarked e.flags) x (Reads-flags e.flags h.flags_range)
        (Reads-bind read_str _ (str_bytes e.port) after_port e.port x (Reads-str e.port h.port_text)
          (Reads-bind read_str _ (str_bytes e.name) after_name e.name x
            (Reads-str e.name h.name_text)
            (Reads-bind read_u64 _ (to_le_bytes 8 e.schema) after_schema e.schema x
              (Reads-u64 e.schema h.schema_range)
              (Reads-bind read_response _
                ((bool_byte (is_some e.response) ∷ []) ++ response_bytes e.response) after_response
                e.response x (Reads-response e.response h.response_text)
                (Reads-bind read_u8 _ (count ∷ []) tail count x (Reads-u8 count)
                  (Reads-tail e h.sources_text)))))))
  where
    x : HelloEntry
    x = received e

    count : ℕ
    count = length (sources_iter e.sources)

    tail : Bytes
    tail = sources_bytes (sources_iter e.sources)

    after_response : Bytes
    after_response = (count ∷ []) ++ tail

    after_schema : Bytes
    after_schema =
        (bool_byte (is_some e.response) ∷ []) ++ (response_bytes e.response ++ after_response)

    after_name : Bytes
    after_name = to_le_bytes 8 e.schema ++ after_schema

    after_port : Bytes
    after_port = str_bytes e.name ++ after_name

    after_flags : Bytes
    after_flags = str_bytes e.port ++ after_port

    after_hash : Bytes
    after_hash = (bit_or e.flags flag_schema_fingerprint ∷ []) ++ after_flags
