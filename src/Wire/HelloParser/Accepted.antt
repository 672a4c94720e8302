-- ===== src/Wire/HelloParser/Accepted.antt =====
-- What `hello_parse` of crates/reiny-link/src/wire.rs promises of a Hello that it accepts: an address
-- hash stands for one address.
use reiny.Prelude.{
  ◌≡◌, refl, sym, ap, ◌∙◌, Bool, true, false, not, ◌&&◌, ||-eq-false, &&-eq-true, List, [], ◌∷◌,
  ◌++◌, append_assoc, append-nil, Bytes, any, any_after, ◌==◌, ==_iff, bytes_eq, bytes_eq_iff,
  Result, ok, ◌>>=◌, ◌>>◌, refuse, >>=-eq-ok, length,
}
use reiny.Wire.Types.{WireError, malformed}
use reiny.Wire.Table.{EndpointRef, endpoint_eq}
use reiny.Wire.Reader.{Reader}
use reiny.Wire.HelloParser.{
  Hello, hello_parse, parse_head, check_entries, validate_address_hashes, hello_addresses,
  hash_refused, address_hash,
}

endpoint_eq_sound : (a b : EndpointRef) → endpoint_eq a b ≡ true → a ≡ b
endpoint_eq_sound a b h =
    let (same_namespace, same_port) =
      &&-eq-true (bytes_eq a.namespace b.namespace) (bytes_eq a.port b.port) h in
    let n = (bytes_eq_iff a.namespace b.namespace).0 same_namespace in
    let p = (bytes_eq_iff a.port b.port).0 same_port in λ i. record { namespace = n i; port = p i }

any-middle {ℓ} :
    {A : Type ℓ} (p : A → Bool) (front : List A) (a : A) (rest : List A)
    → any p (front ++ (a ∷ rest)) ≡ false
    → p a ≡ false
any-middle p [] a rest h = (||-eq-false (p a) (any p rest) h).0
any-middle p (x ∷ front) a rest h = any-middle p front a rest (||-eq-false (p x) _ h).1

any_after-middle {ℓ} :
    {A : Type ℓ} (refused : List A → A → Bool) (before front : List A) (b : A) (rest : List A)
    → any_after refused before (front ++ (b ∷ rest)) ≡ false
    → refused (before ++ front) b ≡ false
any_after-middle refused before [] b rest h =
    ap (λ l. refused l b) (append-nil before) ∙ (||-eq-false (refused before b) _ h).0
any_after-middle refused before (x ∷ front) b rest h =
    ap (λ l. refused l b) (sym (append_assoc before (x ∷ []) front))
    ∙ any_after-middle refused (before ++ (x ∷ [])) front b rest
        (||-eq-false (refused before x) _ h).1

-- One hash for two addresses is refused unless they are the same.
hash_refused_sound :
    (front between : List EndpointRef) (a b : EndpointRef)
    → hash_refused (front ++ (a ∷ between)) b ≡ false
    → address_hash a ≡ address_hash b
    → a ≡ b
unfolding hash_refused
hash_refused_sound front between a b h same =
    by_eq (endpoint_eq a b) refl (any-middle _ front a between h)
  where
    by_eq :
        (c : Bool)
        → endpoint_eq a b ≡ c
        → (not c && address_hash a == address_hash b) ≡ false
        → a ≡ b
    by_eq true e h' = endpoint_eq_sound a b e
    by_eq false e h' = absurd (let t = (==_iff (address_hash a) (address_hash b)).1 same in cc)

ok-eq : {a b : Hello} → ◌≡◌ {A = Result WireError Hello} (ok a) (ok b) → a ≡ b
ok-eq h = cc

refuse-eq-ok :
    {E : Type 0} (b : Bool) (e : E) {u : Unit {0}}
    → ◌≡◌ {A = Result E (Unit {0})} (refuse b e) (ok u)
    → b ≡ false
refuse-eq-ok true e h = cc
refuse-eq-ok false e h = refl

-- The parts of `hello_parse` behind the loop, and behind the head.
abbrev finish : Bytes → Hello → Reader → Result WireError Hello
finish payload hello r =
    refuse (not (r.pos == length payload)) malformed >> (validate_address_hashes hello >> ok hello)

abbrev behind_head : Bytes → Hello × Reader → Result WireError Hello
behind_head payload parsed =
    refuse (parsed.0.bridge && not (parsed.0.count == 0)) malformed
    >> (check_entries parsed.0 parsed.0.count 0 parsed.1 >>= finish payload parsed.0)

validate-eq-ok :
    (hello : Hello) {u : Unit {0}}
    → validate_address_hashes hello ≡ ok u
    → any_after hash_refused [] (hello_addresses hello) ≡ false
unfolding validate_address_hashes
validate-eq-ok hello h =
    refuse-eq-ok (any_after hash_refused [] (hello_addresses hello)) malformed h

validated :
    (payload : Bytes) (hello : Hello)
    → hello_parse payload ≡ ok hello
    → any_after hash_refused [] (hello_addresses hello) ≡ false
unfolding hello_parse
validated payload hello h =
    let (parsed, _, after_head) = >>=-eq-ok (parse_head payload) (behind_head payload) h in
    let (_, _, after_bridge) =
      >>=-eq-ok (refuse (parsed.0.bridge && not (parsed.0.count == 0)) malformed)
        (λ _. check_entries parsed.0 parsed.0.count 0 parsed.1 >>= finish payload parsed.0)
        after_head in
    let (r, _, after_entries) =
      >>=-eq-ok (check_entries parsed.0 parsed.0.count 0 parsed.1) (finish payload parsed.0)
        after_bridge in
    let (_, _, after_end) =
      >>=-eq-ok (refuse (not (r.pos == length payload)) malformed)
        (λ _. validate_address_hashes parsed.0 >> ok parsed.0) after_entries in
    let (_, valid, result) =
      >>=-eq-ok (validate_address_hashes parsed.0) (λ _. ok parsed.0) after_end in
    let same : parsed.0 ≡ hello = ok-eq result in
    ap (λ g. any_after hash_refused [] (hello_addresses g)) (sym same)
    ∙ validate-eq-ok parsed.0 valid

-- In a Hello that `hello_parse` accepts an address hash stands for one address: two of its
-- addresses, its own ports or their sources, that share a hash are the same address.
pub accepted_hashes :
    (payload : Bytes) (hello : Hello) (front between rest : List EndpointRef) (a b : EndpointRef)
    → hello_parse payload ≡ ok hello
    → hello_addresses hello ≡ front ++ (a ∷ (between ++ (b ∷ rest)))
    → address_hash a ≡ address_hash b
    → a ≡ b
accepted_hashes payload hello front between rest a b parsed split same =
    hash_refused_sound front between a b
      (any_after-middle hash_refused [] (front ++ (a ∷ between)) b rest (
        ap (any_after hash_refused []) (append_assoc front (a ∷ between) (b ∷ rest) ∙ sym split)
        ∙ validated payload hello parsed))
      same
