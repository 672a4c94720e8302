-- ===== src/Wire/HelloParser/Rules.antt =====
-- What the table of a Hello is to keep to, in the words of crates/reiny-link/src/wire.rs.
use reiny.Prelude.{
  ℕ, ◌<◌, ◌≡◌, ◌≢◌, ◌⊎◌, Bool, true, Option, none, some, List, [], Bytes, All, Pairs, length,
  flat_map, is_some,
}
use reiny.Wire.Types.{flag_calls}
use reiny.Wire.Hash.{endpoint_hash}
use reiny.Wire.Text.{valid_port, valid_namespace, valid_type}
use reiny.Wire.Table.{EndpointRef, HelloType, HelloEntry}
use reiny.Wire.EntryReader.{sources_iter}
use reiny.Wire.HelloParser.{has_flag, is_source_side, address_hash, entry_addresses}

-- One direction: a publication, latched (8) or not, a subscription, a server or a caller. Only those
-- of RPC have a response, and only the receiving ones sources, a caller one.
abbrev pub IsDirected : ℕ → Option HelloType → List EndpointRef → Type 0
IsDirected flags response sources =
    (((flags ≡ 1) ⊎ (flags ≡ 9)) × (response ≡ none) × (sources ≡ []))
    ⊎ (((flags ≡ 2) × (response ≡ none) × (0 < length sources))
        ⊎ (((flags ≡ 4) × (is_some response ≡ true) × (sources ≡ []))
            ⊎ ((flags ≡ 32) × (is_some response ≡ true) × (length sources ≡ 1))))

abbrev pub IsNamedResponse : Option HelloType → Type 0
IsNamedResponse none = Unit {0}
IsNamedResponse (some response) = valid_type response.name ≡ true

abbrev pub IsSource : EndpointRef → Type 0
IsSource source = (valid_namespace source.namespace ≡ true) × (valid_port source.port ≡ true)

abbrev pub IsDeclared : Bytes → HelloEntry → Type 0
IsDeclared id e =
    IsDirected e.flags e.response (sources_iter e.sources)
    × (valid_port e.port ≡ true)
    × (valid_type e.name ≡ true)
    × (e.hash ≡ endpoint_hash id e.port)
    × IsNamedResponse e.response
    × All IsSource (sources_iter e.sources)
    × Pairs (λ a b. a ≢ b) (sources_iter e.sources)

-- Readers of one source read one contract.
abbrev pub IsSameContract : HelloEntry → HelloEntry → Type 0
IsSameContract p e =
    (p.name ≡ e.name)
    × (p.schema ≡ e.schema)
    × (p.response ≡ e.response)
    × (has_flag p.flags flag_calls ≡ has_flag e.flags flag_calls)

-- A port name is taken once on each side, and a hash by one port name.
abbrev pub AreCompatible : HelloEntry → HelloEntry → Type 0
AreCompatible p e =
    All (λ s. All (λ t. s ≡ t → IsSameContract p e) (sources_iter e.sources))
      (sources_iter p.sources)
    × (p.port ≡ e.port → is_source_side p.flags ≢ is_source_side e.flags)
    × (p.hash ≡ e.hash → p.port ≡ e.port)

-- A bridge declares nothing, and two addresses of one hash are the same.
abbrev pub IsTable : Bool → Bytes → List HelloEntry → Type 0
IsTable bridge id es =
    (bridge ≡ true → es ≡ [])
    × All (IsDeclared id) es
    × Pairs AreCompatible es
    × Pairs (λ a b. address_hash a ≡ address_hash b → a ≡ b) (flat_map (entry_addresses id) es)
