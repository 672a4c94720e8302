-- ===== src/Tests/WireRuns.antt =====
-- The wire format on concrete inputs.
use reiny.Prelude.{
  ◌⊎◌, ◌↔◌, err, ℕ, ◌+◌, ◌≡◌, refl, arith, true, false, none, some, ok, bytes_eq, List, [], ◌∷◌,
  ◌++◌, Bytes, All, IsByte, length, take, drop, slice, map, replicate, codes,
}
use reiny.Wire.Types.{Kind, Header, IsHeader, overhead, header_len, flag_pub, flag_sub, malformed}
use reiny.Wire.Frame.{seal, parse}
use reiny.Wire.Frame.Layout.{frame_bytes, frame_bytes-IsByte}
use reiny.Wire.Frame.Accepted.{parse_sound}
use reiny.Wire.Frame.Carried.{parse-seal}
use reiny.Wire.Frame.RoundTrip.{parse-frame_bytes}
use mathlib.Core.List.{flat_map}
use reiny.Wire.Reader.{read_bytes, read_str}
use reiny.Wire.Text.{from_utf8, valid_namespace, valid_type}
use reiny.Wire.Table.{EndpointRef, HelloEntry, from_static}
use reiny.Wire.EntryReader.{sources_iter, read_entry}
use reiny.Wire.EntryReader.Laws.{IsEntry, received}
use reiny.Wire.EntryWriter.Laws.{EntryFits}
use reiny.Wire.HelloWriter.{hello_write}
use reiny.Wire.HelloWriter.Laws.{hello_bytes, hello_write_lem}
use reiny.Wire.HelloParser.{hello_parse, hello_entries, hello_addresses}
use reiny.Wire.HelloParser.Accepted.{accepted_hashes}
use reiny.Wire.HelloParser.Laws.{expected}
use reiny.Wire.HelloParser.Rules.{IsTable}
use reiny.Wire.HelloParser.RoundTrip.{hello_parse-hello_bytes, hello_entries-hello_parse}
use reiny.Wire.Hash.{endpoint_hash, type_hash, address_bytes, endpoint_hash_address}
use reiny.Tests.Samples.{sample, sample-IsCodec}

abbrev head : Header
head = record { kind = Kind.request; hash = 1000; seq = 7 }

head-IsHeader : IsHeader head
head-IsHeader = record { hash_range = omega arith; seq_range = omega arith }

abbrev two_bytes : Bytes
two_bytes = 104 ∷ 105 ∷ []

abbrev blank : Bytes
blank = replicate 20 0

abbrev pub temperature : HelloEntry
temperature = record {
  hash = 3243834980;
  flags = flag_pub;
  schema = 99;
  name = codes "Temp";
  port = codes "t";
  response = none;
  sources = from_static [];
}

abbrev pub node : Bytes
node = codes "node"

temperature-EntryFits : EntryFits temperature
unfolding sources_iter
temperature-EntryFits = record {
  port_fits = omega arith;
  name_fits = omega arith;
  response_fits = tt;
  count_fits = omega arith;
  sources_fit = tt;
}

temperature-IsEntry : IsEntry temperature
unfolding from_utf8 sources_iter
temperature-IsEntry = record {
  hash_range = omega arith;
  flags_range = omega arith;
  port_text = refl;
  name_text = refl;
  schema_range = omega arith;
  response_text = tt;
  sources_text = tt;
  fits = temperature-EntryFits;
}

node-valid : valid_namespace node ≡ true
unfolding valid_namespace bytes_eq
node-valid = refl

node-text : from_utf8 node ≡ some node
unfolding from_utf8
node-text = refl

-- A Hello that is written and parsed.
hello_run :
    hello_parse (hello_bytes false false node (temperature ∷ []))
    ≡ ok (expected false false node (temperature ∷ []))
unfolding hello_parse valid_namespace from_utf8 sources_iter bytes_eq endpoint_hash read_bytes
    read_str read_entry valid_type flat_map hello_entries
hello_run = refl

hello_parse-hello_bytes_example :
    ((hello_parse (hello_bytes false false node (temperature ∷ []))
        ≡ ok (expected false false node (temperature ∷ [])))
      ⊎ (hello_parse (hello_bytes false false node (temperature ∷ [])) ≡ err malformed))
    × ((hello_parse (hello_bytes false false node (temperature ∷ []))
          ≡ ok (expected false false node (temperature ∷ [])))
        ↔ IsTable false node (map received (temperature ∷ [])))
hello_parse-hello_bytes_example =
    hello_parse-hello_bytes false false node (temperature ∷ []) node-text node-valid (omega arith)
      (temperature-IsEntry, tt) (omega arith)

hello_write_lem_example : hello_write (replicate 64 0) false false node (temperature ∷ []) ≡ (
  ok (length (hello_bytes false false node (temperature ∷ []))),
  hello_bytes false false node (temperature ∷ [])
      ++ drop (length (hello_bytes false false node (temperature ∷ []))) (replicate 64 0),
)
unfolding sources_iter
hello_write_lem_example =
    hello_write_lem (replicate 64 0) false false node (temperature ∷ []) (omega arith)
      (temperature-EntryFits, tt) (omega arith) (omega arith)

hello_entries-hello_parse_example :
    let hello = expected false false node (temperature ∷ []) in
    (hello.ack ≡ false)
    × (hello.bridge ≡ false)
    × (hello.id ≡ node)
    × (hello_entries hello ≡ map received (temperature ∷ []))
hello_entries-hello_parse_example =
    hello_entries-hello_parse false false node (temperature ∷ []) node-text node-valid
      (expected false false node (temperature ∷ [])) (omega arith) (temperature-IsEntry, tt)
      (omega arith) hello_run

parse-seal_example :
    (sealed : Bytes) × (seal sample blank head 2 ≡ ok (overhead + 2, sealed))
    × (parse sample (take (overhead + 2) sealed)
        ≡ ok (head, slice blank header_len (header_len + 2)))
parse-seal_example = parse-seal sample blank head 2 sample-IsCodec head-IsHeader (omega arith)

two_bytes_frame : All IsByte (frame_bytes sample head two_bytes)
two_bytes_frame =
    frame_bytes-IsByte sample head two_bytes head-IsHeader (omega arith, (omega arith, tt))

parse_sound_example : frame_bytes sample head two_bytes ≡ frame_bytes sample head two_bytes
parse_sound_example =
    parse_sound sample (frame_bytes sample head two_bytes) head two_bytes two_bytes_frame
      (parse-frame_bytes sample sample-IsCodec head two_bytes head-IsHeader)

abbrev two_sources : List EndpointRef
two_sources =
    record { namespace = codes "a"; port = codes "x" }
    ∷ record { namespace = codes "b"; port = codes "y" }
    ∷ []

endpoint_hash_address_example :
    (endpoint_hash (codes "ab") (codes "c") ≡ type_hash (address_bytes (codes "ab") (codes "c")))
    × (address_bytes (codes "ab") (codes "c") ≡ address_bytes (codes "a") (codes "bc")
        → (codes "ab" ≡ codes "a") × (codes "c" ≡ codes "bc"))
endpoint_hash_address_example =
    endpoint_hash_address (codes "ab") (codes "c") (codes "a") (codes "bc") (omega arith)
      (omega arith) (omega arith) (omega arith)

-- Two inputs that are wired to the same output.
abbrev far : EndpointRef
far = record { namespace = codes "a"; port = codes "x" }

abbrev far_input : ℕ → Bytes → HelloEntry
far_input hash port = record {
  hash = hash;
  flags = flag_sub;
  schema = 99;
  name = codes "Temp";
  port = port;
  response = none;
  sources = from_static (record { namespace = codes "a"; port = codes "x" } ∷ []);
}

abbrev two_inputs : List HelloEntry
two_inputs = far_input 3260612599 (codes "u") ∷ far_input 3277390218 (codes "v") ∷ []

abbrev near : Bytes → EndpointRef
near port = record { namespace = node; port = port }

two_inputs_run :
    hello_parse (hello_bytes false false node two_inputs)
    ≡ ok (expected false false node two_inputs)
unfolding hello_parse valid_namespace from_utf8 sources_iter bytes_eq endpoint_hash read_bytes
    read_str read_entry valid_type flat_map hello_entries
two_inputs_run = refl

two_inputs_addresses :
    hello_addresses (expected false false node two_inputs)
    ≡ (near (codes "u") ∷ []) ++ (far ∷ ((near (codes "v") ∷ []) ++ (far ∷ [])))
unfolding from_utf8 sources_iter bytes_eq endpoint_hash read_bytes read_str read_entry flat_map
    hello_entries hello_addresses
two_inputs_addresses = refl

accepted_hashes_example : far ≡ far
accepted_hashes_example =
    accepted_hashes (hello_bytes false false node two_inputs) (expected false false node two_inputs)
      (near (codes "u") ∷ []) (near (codes "v") ∷ []) [] far far two_inputs_run two_inputs_addresses
      refl
