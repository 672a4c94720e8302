-- ===== src/Wire/HelloParser/Checked.antt =====
-- `hello_parse` checks the rules of the table.
use reiny.Prelude.{
  everywhere, ◌≡◌, ◌≢◌, ◌↔◌, refl, sym, arith, Bool, true, false, not, ◌&&◌, ◌||◌, Option, none,
  some, List, [], ◌∷◌, Bytes, All, Pairs, length, any, any_after, is_some, is_some_and, IsByte,
  iff_trans, iff_refl, both_iff, any-false_iff, any_after_iff, ◌==◌, ==_iff, bytes_eq, bytes_eq_iff,
}
use reiny.Wire.Types.{flag_calls}
use reiny.Wire.Hash.{endpoint_hash}
use reiny.Wire.Text.{valid_port, valid_namespace, valid_type}
use reiny.Wire.Table.{EndpointRef, endpoint_eq, HelloType, hello_type_eq, HelloEntry}
use reiny.Wire.EntryReader.{sources_iter}
use reiny.Wire.HelloParser.{
  xor, direction, is_direction, is_rpc, has_flag, is_source_side, contract_refused,
  source_count_refused, source_refused, previous_refused, entry_refused, hash_refused, address_hash,
}
use reiny.Wire.HelloParser.Rules.{
  IsNamedResponse, IsSource, IsDeclared, IsSameContract, AreCompatible,
}
use reiny.Wire.HelloParser.Flags.{
  must_iff, or_says, and_says, endpoint_eq_iff, hello_type_eq_iff, AreFlags, flags_of,
  flags-IsDirected, are_flags,
}

false_iff : {P : Type 0} {b : Bool} → (b ≡ true) ↔ P → (b ≡ false) ↔ (P → ⊥)
false_iff {b = true} means = (λ h. cc, λ no_p. absurd (no_p (means.0 refl)))
false_iff {b = false} means = (λ _ p. let e = means.1 p in cc, λ _. refl)

xor_iff : (a b : Bool) → (xor a b ≡ false) ↔ (a ≡ b)
xor_iff a b = ground arith

same_side_iff : (a b : Bool) → (not (xor a b) ≡ false) ↔ (a ≢ b)
same_side_iff true true = (λ h. cc, λ h. absurd (h refl))
same_side_iff true false = (λ _ e. cc, λ _. refl)
same_side_iff false true = (λ _ e. cc, λ _. refl)
same_side_iff false false = (λ h. cc, λ h. absurd (h refl))

pub hash_pair :
    {P Q : Type 0} (same hashed : Bool)
    → (same ≡ true) ↔ P
    → (hashed ≡ true) ↔ Q
    → (not same && hashed ≡ false) ↔ (Q → P)
hash_pair true hashed p q = (λ _ _. p.0 refl, λ _. refl)
hash_pair false true p q = (λ h. cc, λ by. absurd (let e = p.1 (by (q.0 refl)) in cc))
hash_pair false false p q = (λ _ h. absurd (let e = q.1 h in cc), λ _. refl)

-- The rounds over the sources.
source_refused-IsSource :
    (before : List EndpointRef) (s : EndpointRef)
    → (source_refused before s ≡ false) ↔ (IsSource s × All (λ p. p ≢ s) before)
unfolding source_refused
source_refused-IsSource before s =
    or_says (or_says (must_iff (valid_namespace s.namespace)) (must_iff (valid_port s.port)))
      (any-false_iff _ before (λ p. false_iff (endpoint_eq_iff p s)))

sources_iff :
    (xs : List EndpointRef)
    → (any_after source_refused [] xs ≡ false) ↔ (All IsSource xs × Pairs (λ a b. a ≢ b) xs)
sources_iff xs =
    let rounds =
      any_after_iff {U = IsSource} {R = λ a b. a ≢ b} source_refused [] xs
        source_refused-IsSource in
    (λ h. (rounds.0 h).1, λ h. rounds.1 (tt, h))

-- What a pair of entries is tested for.
both_and : (a b c : Bool) → ((a || b) && c ≡ false) ↔ ((a && c ≡ false) × (b && c ≡ false))
both_and a b c = ground arith

any_and_iff :
    {A : Type 0} {P : A → Type 0} (f : A → Bool) (b : Bool) (xs : List A)
    → ((x : A) → (f x && b ≡ false) ↔ P x)
    → (any f xs && b ≡ false) ↔ All P xs
any_and_iff f b [] means = (λ _. tt, λ _. refl)
any_and_iff f b (x ∷ xs) means =
    iff_trans (both_and (f x) (any f xs) b) (both_iff (means x) (any_and_iff f b xs means))

turned : {A : Type 0} {a b : A} → (a ≡ b) ↔ (b ≡ a)
turned = (λ e. sym e, λ e. sym e)

pub must_be : {P : Type 0} {b : Bool} → (b ≡ true) ↔ P → (not b ≡ false) ↔ P
must_be {b = b} means = iff_trans (must_iff b) means

contract_says :
    (p e : HelloEntry)
    → (not (bytes_eq p.name e.name)
          || not (p.schema == e.schema)
          || not (hello_type_eq p.response e.response)
          || xor (has_flag p.flags flag_calls) (has_flag e.flags flag_calls)
        ≡ false)
      ↔ IsSameContract p e
contract_says p e =
    let parts =
      or_says
        (or_says
          (or_says (must_be (bytes_eq_iff p.name e.name)) (must_be (==_iff p.schema e.schema)))
          (must_be (hello_type_eq_iff p.response e.response)))
        (xor_iff (has_flag p.flags flag_calls) (has_flag e.flags flag_calls)) in
    (
      λ h. let q = parts.0 h in (q.0.0.0, q.0.0.1, q.0.1, q.1),
      λ q. parts.1 (((q.0, q.1), q.2), q.3),
    )

pair_iff : (e p : HelloEntry) → (previous_refused e p ≡ false) ↔ AreCompatible p e
unfolding previous_refused
pair_iff e p =
    let shared = any_and_iff _ _ (sources_iter p.sources) (λ s.
      any_and_iff _ _ (sources_iter e.sources)
        (λ t. and_says (iff_trans (endpoint_eq_iff t s) turned) (contract_says p e))) in
    let slot =
      and_says (bytes_eq_iff p.port e.port)
        (same_side_iff (is_source_side p.flags) (is_source_side e.flags)) in
    let one_hash = and_says (==_iff p.hash e.hash) (must_be (bytes_eq_iff p.port e.port)) in
    let parts = or_says (or_says shared slot) one_hash in
    (λ h. let q = parts.0 h in (q.0.0, q.0.1, q.1), λ q. parts.1 ((q.0, q.1), q.2))

-- What a round over the entries tests of one entry, the flags by their bits.
abbrev IsTested : Bytes → HelloEntry → Type 0
IsTested id e =
    AreFlags e.flags (is_some e.response) (length (sources_iter e.sources))
    × (valid_port e.port ≡ true)
    × (valid_type e.name ≡ true)
    × (e.hash ≡ endpoint_hash id e.port)
    × IsNamedResponse e.response
    × All IsSource (sources_iter e.sources)
    × Pairs (λ a b. a ≢ b) (sources_iter e.sources)

response_iff :
    (response : Option HelloType)
    → (is_some_and response (λ r. not (valid_type r.name)) ≡ false) ↔ IsNamedResponse response
response_iff none = (λ _. tt, λ _. refl)
response_iff (some r) = must_iff (valid_type r.name)

entry_iff :
    (id : Bytes) (before : List HelloEntry) (e : HelloEntry)
    → (entry_refused id before e ≡ false) ↔ (IsTested id e × All (λ p. AreCompatible p e) before)
unfolding entry_refused contract_refused source_count_refused
entry_iff id before e =
    let contract =
      or_says
        (or_says
          (or_says
            (or_says
              (or_says (or_says (must_iff (is_direction (direction e))) (iff_refl _))
                (must_iff (valid_port e.port)))
              (must_iff (valid_type e.name)))
            (must_be (==_iff e.hash (endpoint_hash id e.port))))
          (iff_refl (xor (is_rpc (direction e)) (is_some e.response) ≡ false)))
        (response_iff e.response) in
    let parts =
      or_says (or_says (or_says contract (iff_refl _)) (sources_iff (sources_iter e.sources)))
        (any-false_iff (previous_refused e) before (λ p. pair_iff e p)) in
    (
      λ h.
          let q = parts.0 h in
          let c = q.0.0.0 in
          (
            (
              (c.0.0.0.0.0.0, c.0.0.0.0.0.1, c.0.1, q.0.0.1),
              c.0.0.0.0.1,
              c.0.0.0.1,
              c.0.0.1,
              c.1,
              q.0.1.0,
              q.0.1.1,
            ),
            q.1,
          ),
      λ q.
          let t = q.0 in
          parts.1 (((((((((t.0.0, t.0.1), t.1), t.2), t.3), t.0.2), t.4), t.0.3), (t.5, t.6)), q.1),
    )

-- On a byte of flags the tests say one direction.
IsTested-IsDeclared :
    (id : Bytes) (e : HelloEntry) → IsByte e.flags → IsTested id e ↔ IsDeclared id e
IsTested-IsDeclared id e range = (
  λ t. (
    flags-IsDirected e.flags e.response (sources_iter e.sources)
        (flags_of e.flags range t.0.0 t.0.1) t.0,
    t.1,
    t.2,
    t.3,
    t.4,
    t.5,
    t.6,
  ),
  λ d. (are_flags e.flags e.response (sources_iter e.sources) d.0, d.1, d.2, d.3, d.4, d.5, d.6),
)

All-iff_where :
    {A : Type 0} {H P Q : A → Type 0} (xs : List A)
    → ((x : A) → H x → P x ↔ Q x)
    → All H xs
    → All P xs ↔ All Q xs
All-iff_where [] means held = (λ _. tt, λ _. tt)
All-iff_where (x ∷ xs) means held = both_iff (means x held.0) (All-iff_where xs means held.1)

pub entries_iff :
    (id : Bytes) (es : List HelloEntry)
    → All (λ e. IsByte e.flags) es
    → (any_after (entry_refused id) [] es ≡ false)
      ↔ (All (IsDeclared id) es × Pairs AreCompatible es)
entries_iff id es ranges =
    let rounds =
      any_after_iff {U = IsTested id} {R = AreCompatible} (entry_refused id) [] es (entry_iff id) in
    let declared = All-iff_where es (IsTested-IsDeclared id) ranges in
    (
      λ h. let q = (rounds.0 h).1 in (declared.0 q.0, q.1),
      λ q. rounds.1 (tt, (declared.1 q.0, q.1)),
    )

hash_iff :
    (before : List EndpointRef) (a : EndpointRef)
    → (hash_refused before a ≡ false)
      ↔ (Unit {0} × All (λ p. address_hash p ≡ address_hash a → p ≡ a) before)
unfolding hash_refused
hash_iff before a =
    let each = any-false_iff {P = λ p. address_hash p ≡ address_hash a → p ≡ a} _ before (λ p.
      let test = ==_iff (address_hash p) (address_hash a) in
      let same = endpoint_eq_iff p a in
      hash_pair (endpoint_eq p a) (address_hash p == address_hash a) same test) in
    (λ h. (tt, each.0 h), λ q. each.1 q.1)

pub addresses_iff :
    (xs : List EndpointRef)
    → (any_after hash_refused [] xs ≡ false)
      ↔ Pairs (λ a b. address_hash a ≡ address_hash b → a ≡ b) xs
addresses_iff xs =
    let rounds =
      any_after_iff {U = λ a. Unit {0}} {R = λ a b. address_hash a ≡ address_hash b → a ≡ b}
        hash_refused [] xs hash_iff in
    (λ h. (rounds.0 h).1.1, λ q. rounds.1 (tt, (everywhere xs (λ x. tt), q)))
