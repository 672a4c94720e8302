-- ===== src/Wire/HelloParser/RoundTrip.antt =====
-- `hello_parse` on what `hello_write` writes.
use reiny.Prelude.{
  ◌<◌, ◌≡◌, ◌↔◌, ◌⊎◌, inl, inr, refl, sym, ap, ◌∙◌, Bool, true, false, Result, ok, err, refuse,
  ◌>>◌, List, [], ◌∷◌, Bytes, All, Pairs, length, map, flat_map, any_after, IsByte, iff_trans,
  iff_refl, ◌==◌, ==_iff, arith,
}
use mathlib.Core.Path.{subst}
use reiny.Wire.Types.{WireError, malformed}
use reiny.Wire.Text.{valid_namespace}
use reiny.Wire.Table.{HelloEntry}
use reiny.Wire.EntryWriter.Laws.{IsShort}
use reiny.Wire.EntryReader.Laws.{IsText, IsEntry, received, unmarked-IsByte}
use reiny.Wire.HelloWriter.Laws.{hello_bytes}
use reiny.Wire.HelloParser.{
  Hello, hello_entries, hello_addresses, entry_addresses, hash_refused, address_hash, hello_parse,
}
use reiny.Wire.HelloParser.Laws.{
  expected, hello_entries-expected, table_refused, hello_parse_written,
}
use reiny.Wire.HelloParser.Rules.{IsTable}
use reiny.Wire.HelloParser.Flags.{and_says, or_says}
use reiny.Wire.HelloParser.Checked.{must_be, entries_iff, addresses_iff}

nothing_iff : (es : List HelloEntry) → ((length es == 0) ≡ true) ↔ (map received es ≡ [])
nothing_iff [] = (λ _. refl, λ _. refl)
nothing_iff (e ∷ rest) = (
  λ h. let none_there = (==_iff (length (e ∷ rest)) 0).0 h in absurd (omega (arith, none_there)),
  λ h. cc,
)

received-IsByte :
    (es : List HelloEntry) → All IsEntry es → All (λ e. IsByte e.flags) (map received es)
received-IsByte [] all = tt
received-IsByte (e ∷ rest) all =
    (unmarked-IsByte e.flags all.0.flags_range, received-IsByte rest all.1)

refused_iff :
    (b : Bool) (hello : Hello)
    → ◌↔◌ (◌≡◌ {A = Result WireError Hello} (refuse b malformed >> ok hello) (ok hello)) (b ≡ false)
refused_iff true hello = (λ h. cc, λ h. cc)
refused_iff false hello = (λ _. refl, λ _. refl)

either_way :
    (b : Bool) (hello : Hello)
    → (◌≡◌ {A = Result WireError Hello} (refuse b malformed >> ok hello) (ok hello))
      ⊎ (◌≡◌ {A = Result WireError Hello} (refuse b malformed >> ok hello) (err malformed))
either_way true hello = inr refl
either_way false hello = inl refl

module _ (ack bridge : Bool) (id : Bytes) (es : List HelloEntry) (text : IsText id)
    (valid : valid_namespace id ≡ true) where
  table_refused-IsTable :
      All IsEntry es
      → (table_refused ack bridge id es text valid ≡ false) ↔ IsTable bridge id (map received es)
  unfolding hello_addresses
  table_refused-IsTable all =
      let written = expected ack bridge id es in
      let listed = hello_entries-expected ack bridge id es all in
      let addresses =
        subst
          (λ l.
            (any_after hash_refused [] (hello_addresses written) ≡ false)
            ↔ Pairs (λ a b. address_hash a ≡ address_hash b → a ≡ b) l)
          (ap (flat_map (entry_addresses id)) listed) (addresses_iff (hello_addresses written)) in
      let parts =
        or_says
          (or_says (and_says (iff_refl (bridge ≡ true)) (must_be (nothing_iff es)))
            (entries_iff id (map received es) (received-IsByte es all)))
          addresses in
      (
        λ h. let q = parts.0 h in (q.0.0, q.0.1.0, q.0.1.1, q.1),
        λ q. parts.1 ((q.0, (q.1, q.2)), q.3),
      )

  -- For an identifier that is UTF-8, short and a valid namespace, and fewer than 256 entries whose
  -- fields lie in their machine types, whose strings are UTF-8 and whose lengths fit their bytes,
  -- `hello_parse` reads the bytes of a Hello back as that Hello or refuses it as malformed; and it
  -- accepts it exactly where a bridge declares nothing, each entry, as it is received, declares one
  -- direction with the response and the sources that go with it under valid names and its hash, no
  -- entry names a source twice, each pair of entries keeps apart ports and hashes and shares a
  -- source only under one contract, and no two addresses share a hash.
  pub hello_parse-hello_bytes :
      IsShort id
      → All IsEntry es
      → length es < 256
      → ((hello_parse (hello_bytes ack bridge id es) ≡ ok (expected ack bridge id es))
          ⊎ (hello_parse (hello_bytes ack bridge id es) ≡ err malformed))
        × ((hello_parse (hello_bytes ack bridge id es) ≡ ok (expected ack bridge id es))
            ↔ IsTable bridge id (map received es))
  hello_parse-hello_bytes short all few =
      let refused = table_refused ack bridge id es text valid in
      rw (hello_parse_written ack bridge id es text valid all) (
        either_way refused (expected ack bridge id es),
        iff_trans (refused_iff refused (expected ack bridge id es)) (table_refused-IsTable all),
      )

  as_written :
      (b : Bool) (hello : Hello)
      → ◌≡◌ {A = Result WireError Hello}
          (refuse b malformed >> ok (expected ack bridge id es))
          (ok hello)
      → hello ≡ expected ack bridge id es
  as_written true hello h = cc
  as_written false hello h = cc

  -- For an identifier that is UTF-8, short and a valid namespace, and fewer than 256 entries whose
  -- fields lie in their machine types, whose strings are UTF-8 and whose lengths fit their bytes, a
  -- Hello that `hello_parse` reads from their bytes has the marks and the identifier that were
  -- written and iterates as those entries, with their sources as they stand on the wire and their
  -- flags without the mark of the schema fingerprint.
  pub hello_entries-hello_parse :
      (hello : Hello)
      → IsShort id
      → All IsEntry es
      → length es < 256
      → hello_parse (hello_bytes ack bridge id es) ≡ ok hello
      → (hello.ack ≡ ack)
        × (hello.bridge ≡ bridge)
        × (hello.id ≡ id)
        × (hello_entries hello ≡ map received es)
  hello_entries-hello_parse hello short all few parsed =
      let same =
        as_written (table_refused ack bridge id es text valid) hello
          (sym (hello_parse_written ack bridge id es text valid all) ∙ parsed) in
      (
        ap (λ h. h.ack) same,
        ap (λ h. h.bridge) same,
        ap (λ h. h.id) same,
        ap hello_entries same ∙ hello_entries-expected ack bridge id es all,
      )
