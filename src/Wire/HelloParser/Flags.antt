-- ===== src/Wire/HelloParser/Flags.antt =====
-- The tests of `hello_parse` on the flags of an entry, and the tests that it is made of.
use reiny.Prelude.{
  and_iff, is_some_iff, ℕ, ◌≡◌, ◌↔◌, ◌⊎◌, inl, inr, refl, ap, arith, Bool, true, false, not, ◌&&◌,
  ◌||◌, Option, none, some, List, [], ◌∷◌, length, is_some, IsByte, bit_and, iff_trans, both_iff,
  or_false_iff, ◌==◌, ==_iff, bytes_eq_iff, all_below, all_below_sound,
}
use mathlib.Core.Path.{subst}
use reiny.Wire.Types.{flag_pub, flag_sub, flag_serve, flag_latched, flag_calls}
use reiny.Wire.Table.{EndpointRef, endpoint_eq, HelloType, hello_type_eq}
use reiny.Wire.HelloParser.{xor, is_direction, is_rpc, has_flag}
use reiny.Wire.HelloParser.Rules.{IsDirected}

pub must_iff : (b : Bool) → (not b ≡ false) ↔ (b ≡ true)
must_iff true = (λ _. refl, λ _. refl)
must_iff false = (λ h. cc, λ h. cc)

-- `a || b` and `a && b` of such tests.
pub or_says :
    {P Q : Type 0} {a b : Bool} → (a ≡ false) ↔ P → (b ≡ false) ↔ Q → ((a || b) ≡ false) ↔ (P × Q)
or_says {a = a} {b = b} f g = iff_trans (or_false_iff a b) (both_iff f g)

pub and_says :
    {P Q : Type 0} {a b : Bool} → (a ≡ true) ↔ P → (b ≡ false) ↔ Q → ((a && b) ≡ false) ↔ (P → Q)
and_says {a = true} f g = (λ h p. g.0 h, λ q. g.1 (q (f.0 refl)))
and_says {a = false} f g = (λ _ p. absurd (let e = f.1 p in cc), λ _. refl)

record_path : (a b : EndpointRef) → a.namespace ≡ b.namespace → a.port ≡ b.port → a ≡ b
record_path a b p q = λ i. record { namespace = p i; port = q i }

pub endpoint_eq_iff : (a b : EndpointRef) → (endpoint_eq a b ≡ true) ↔ (a ≡ b)
endpoint_eq_iff a b =
    let names = and_iff (bytes_eq_iff a.namespace b.namespace) (bytes_eq_iff a.port b.port) in
    (
      λ h. let both = names.0 h in record_path a b both.0 both.1,
      λ e. names.1 (ap (λ x. x.namespace) e, ap (λ x. x.port) e),
    )

type_path : (a b : HelloType) → a.name ≡ b.name → a.schema ≡ b.schema → some a ≡ some b
type_path a b p q = λ i. some (record { name = p i; schema = q i })

pub hello_type_eq_iff : (a b : Option HelloType) → (hello_type_eq a b ≡ true) ↔ (a ≡ b)
hello_type_eq_iff none none = (λ _. refl, λ _. refl)
hello_type_eq_iff none (some b) = (λ h. cc, λ h. cc)
hello_type_eq_iff (some a) none = (λ h. cc, λ h. cc)
hello_type_eq_iff (some a) (some b) =
    let names = and_iff (bytes_eq_iff a.name b.name) (==_iff a.schema b.schema) in
    (
      λ h. let both = names.0 h in type_path a b both.0 both.1,
      λ e. let same : a ≡ b = cc in names.1 (ap (λ x. x.name) same, ap (λ x. x.schema) same),
    )

-- The tests on flags, with whether there is a response and how many sources there are.
abbrev counted : ℕ → ℕ → Bool
counted d n =
    ((d == flag_pub || d == flag_serve) && not (n == 0))
    || (d == flag_sub && n == 0)
    || (d == flag_calls && not (n == 1))

abbrev pub AreFlags : ℕ → Bool → ℕ → Type 0
AreFlags f rpc n =
    (is_direction (bit_and f 247) ≡ true)
    × ((has_flag f flag_latched && not (bit_and f 247 == flag_pub)) ≡ false)
    × (xor (is_rpc (bit_and f 247)) rpc ≡ false)
    × (counted (bit_and f 247) n ≡ false)

-- The bytes of flags that pass.
one_of : ℕ → Bool
one_of f = f == 1 || f == 9 || f == 2 || f == 4 || f == 32

known : ℕ → Bool
known f =
    not (is_direction (bit_and f 247))
    || (has_flag f flag_latched && not (bit_and f 247 == flag_pub))
    || one_of f

known_table : all_below 256 known ≡ true
unfolding all_below known one_of
known_table = refl

no_source : (sources : List EndpointRef) → length sources ≡ 0 → sources ≡ []
no_source [] e = refl
no_source (s ∷ rest) e = absurd (omega (arith, e))

one_of_lem : (f : ℕ) → one_of f ≡ true → (f ≡ 1) ⊎ ((f ≡ 9) ⊎ ((f ≡ 2) ⊎ ((f ≡ 4) ⊎ (f ≡ 32))))
unfolding one_of
one_of_lem f h = ground arith

or_last : (a b c : Bool) → (not a || b || c) ≡ true → a ≡ true → b ≡ false → c ≡ true
or_last a b c h x y = ground arith

pub flags_of :
    (f : ℕ)
    → IsByte f
    → is_direction (bit_and f 247) ≡ true
    → (has_flag f flag_latched && not (bit_and f 247 == flag_pub)) ≡ false
    → (f ≡ 1) ⊎ ((f ≡ 9) ⊎ ((f ≡ 2) ⊎ ((f ≡ 4) ⊎ (f ≡ 32))))
unfolding known
flags_of f range directed latched = one_of_lem f (
    or_last (is_direction (bit_and f 247)) _ (one_of f)
      (all_below_sound 256 known f known_table range) directed latched)

counted_none : (n : ℕ) → (not (n == 0) || false || false) ≡ false → n ≡ 0
counted_none n h = ground arith

at_flags : (rpc : Bool) (n f g : ℕ) → f ≡ g → AreFlags f rpc n → AreFlags g rpc n
at_flags rpc n f g e are = subst (λ h. AreFlags h rpc n) e are

-- The tests and the rule, for each byte of flags.
pub flags-IsDirected :
    (f : ℕ) (response : Option HelloType) (sources : List EndpointRef)
    → (f ≡ 1) ⊎ ((f ≡ 9) ⊎ ((f ≡ 2) ⊎ ((f ≡ 4) ⊎ (f ≡ 32))))
    → AreFlags f (is_some response) (length sources)
    → IsDirected f response sources
flags-IsDirected f response sources (inl e) are =
    let now = at_flags (is_some response) (length sources) f 1 e are in
    inl (inl e, (is_some_iff response).0 now.2, no_source sources (ground (arith, now.3)))
flags-IsDirected f response sources (inr (inl e)) are =
    let now = at_flags (is_some response) (length sources) f 9 e are in
    inl (inr e, (is_some_iff response).0 now.2, no_source sources (ground (arith, now.3)))
flags-IsDirected f response sources (inr (inr (inl e))) are =
    let now = at_flags (is_some response) (length sources) f 2 e are in
    inr (inl (e, (is_some_iff response).0 now.2, ground (arith, now.3)))
flags-IsDirected f response sources (inr (inr (inr (inl e)))) are =
    let now = at_flags (is_some response) (length sources) f 4 e are in
    inr (
      inr
        (inl (e, (must_iff (is_some response)).0 now.2, no_source sources (ground (arith, now.3)))))
flags-IsDirected f response sources (inr (inr (inr (inr e)))) are =
    let now = at_flags (is_some response) (length sources) f 32 e are in
    inr (inr (inr (e, (must_iff (is_some response)).0 now.2, ground (arith, now.3))))

pub are_flags :
    (f : ℕ) (response : Option HelloType) (sources : List EndpointRef)
    → IsDirected f response sources
    → AreFlags f (is_some response) (length sources)
are_flags f response sources (inl (inl e, none_there, empty)) =
    rw (e, none_there, empty) (refl, refl, refl, refl)
are_flags f response sources (inl (inr e, none_there, empty)) =
    rw (e, none_there, empty) (refl, refl, refl, refl)
are_flags f response sources (inr (inl (e, none_there, more))) =
    let some_there : (length sources == 0) ≡ false = ground (arith, more) in
    rw (e, none_there, some_there) (refl, refl, refl, refl)
are_flags f response sources (inr (inr (inl (e, there, empty)))) =
    rw (e, there, empty) (refl, refl, refl, refl)
are_flags f response sources (inr (inr (inr (e, there, one)))) =
    rw (e, there, one) (refl, refl, refl, refl)
