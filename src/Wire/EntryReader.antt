-- ===== src/Wire/EntryReader.antt =====
-- `Reader::entry` and `Sources::iter` of crates/reiny-link/src/wire.rs.
pub mod Laws
pub mod Iteration
use reiny.Prelude.{
  ℕ, zero, suc, Option, none, some, List, [], ◌∷◌, map, bit_and, length, slice, ◌==◌, if◌then◌else◌,
}
use reiny.Wire.Types.{flag_schema_fingerprint}
use reiny.Wire.Table.{EndpointRef, Sources, from_static, from_wire, HelloType, HelloEntry}
use reiny.Wire.Reader.{
  Reader, Read, ◌>>=◌, ◌>>◌, give, give_up, read_u8, read_u32, read_u64, read_str,
}

pub read_source : Read EndpointRef
read_source = do
  namespace ← read_str
  port ← read_str
  give (record { namespace = namespace; port = port })

-- The iterator over source bytes ends at the first pair that cannot be read. A pair takes two
-- bytes at least, so as many rounds as there are bytes are enough.
pub read_sources : ℕ → Reader → List EndpointRef
read_sources zero r = []
read_sources (suc fuel) r = elim (read_source r) [
  | none ↦ []
  | some (source, r') ↦ source ∷ read_sources fuel r'
]

-- `Sources::iter`
unfoldable pub sources_iter : Sources → List EndpointRef
unfolding read_sources read_source
sources_iter (from_static sources) =
    map (λ s. record { namespace = s.namespace; port = s.port }) sources
sources_iter (from_wire bytes) = read_sources (length bytes) (record { buf = bytes; pos = 0 })

-- `!SCHEMA_FINGERPRINT` on a byte.
abbrev not_schema_fingerprint : ℕ
not_schema_fingerprint = 239

pub read_flags : Read ℕ
read_flags = do
  encoded_flags ← read_u8
  if bit_and encoded_flags flag_schema_fingerprint == 0
      then give_up
      else give (bit_and encoded_flags not_schema_fingerprint)

-- `Some(HelloType { name: self.str()?, schema: self.u64()? })`
pub read_hello_type : Read (Option HelloType)
read_hello_type = do
  name ← read_str
  schema ← read_u64
  give (some (record { name = name; schema = schema }))

-- `match self.u8()?`
pub read_response : Read (Option HelloType)
read_response = do
  tag ← read_u8
  if tag == 0 then give none else if tag == 1 then read_hello_type else give_up

-- `for _ in 0..count { self.str()?; self.str()?; }`
pub skip_sources : ℕ → Read (Unit {0})
skip_sources zero = give tt
skip_sources (suc count) = do _ ← read_str; _ ← read_str; skip_sources count

-- `Sources::Wire(&self.buf[start..self.pos])`, and the reader as it is.
abbrev pub position : Read ℕ
position r = some (r.pos, r)

abbrev pub between : ℕ → ℕ → Read Sources
between start end r = some (from_wire (slice r.buf start end), r)

unfoldable pub read_entry : Read HelloEntry
unfolding read_flags read_response read_hello_type skip_sources
read_entry = do
  hash ← read_u32
  flags ← read_flags
  port ← read_str
  name ← read_str
  schema ← read_u64
  response ← read_response
  count ← read_u8
  start ← position
  skip_sources count
  end ← position
  sources ← between start end
  give (record {
    hash = hash;
    flags = flags;
    schema = schema;
    name = name;
    port = port;
    response = response;
    sources = sources;
  })
