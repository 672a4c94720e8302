-- ===== src/Wire/EntryWriter.antt =====
-- How `hello_write` of crates/reiny-link/src/wire.rs writes one entry.
pub mod Laws
use reiny.Prelude.{
  ℕ, Bool, true, false, Option, none, some, err, List, [], ◌∷◌, bit_or, length, ltb, if◌then◌else◌,
  is_some,
}
use reiny.Wire.Types.{too_large, flag_schema_fingerprint}
use reiny.Wire.Table.{EndpointRef, HelloType, HelloEntry}
use reiny.Wire.EntryReader.{sources_iter}
use reiny.Wire.Writer.{Write, ◌>>=◌, ◌>>◌, done, write_u8, write_u32, write_u64, write_str}

-- `u8::from(b)`
abbrev pub bool_byte : Bool → ℕ
bool_byte true = 1
bool_byte false = 0

pub write_response : Option HelloType → Write (Unit {0})
write_response none = done
write_response (some response) = do write_str response.name; write_u64 response.schema

pub write_sources : List EndpointRef → Write (Unit {0})
write_sources [] = done
write_sources (source ∷ rest) = do
  write_str source.namespace
  write_str source.port
  write_sources rest

-- `u8::try_from(count).map_err(|_| WireError::TooLarge)?`, then the byte.
pub write_count : ℕ → Write (Unit {0})
write_count n w = let written = write_u8 n w in if ltb n 256 then written else (err too_large, w)

unfoldable pub write_entry : HelloEntry → Write (Unit {0})
unfolding write_response write_sources write_count
write_entry e = do
  write_u32 e.hash
  write_u8 (bit_or e.flags flag_schema_fingerprint)
  write_str e.port
  write_str e.name
  write_u64 e.schema
  write_u8 (bool_byte (is_some e.response))
  write_response e.response
  write_count (length (sources_iter e.sources))
  write_sources (sources_iter e.sources)
