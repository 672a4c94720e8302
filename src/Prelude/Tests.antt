-- ===== src/Prelude/Tests.antt =====
-- Boolean tests on the native numbers, and the conditional.
use Prim.Native.Nat.{ℕ, ◌≤◌, ◌<◌, compare, Ordering}
use mathlib.Core.Path.{◌≡◌, refl, sym, ◌∙◌}
use mathlib.Core.Logic.{◌↔◌, ◌⊎◌, inl, inr}
use mathlib.Core.Bool.{Bool, true, false, not, ◌&&◌, ◌||◌}
use mathlib.Core.Option.{Option, none, some}
use native.Mathlib.Omega.{arith}

abbrev pub ltb : ℕ → ℕ → Bool
ltb a b = elim (compare a b) [ Ordering.lt ↦ true | _ ↦ false ]

abbrev pub leb : ℕ → ℕ → Bool
leb a b = elim (compare a b) [ Ordering.gt ↦ false | _ ↦ true ]

infix 50 ◌==◌
abbrev pub ◌==◌ : ℕ → ℕ → Bool
a == b = elim (compare a b) [ Ordering.eq ↦ true | _ ↦ false ]

infix 1 if◌then◌else◌
abbrev pub if◌then◌else◌ {ℓ} : {A : Type ℓ} → Bool → A → A → A
if true then x else y = x
if false then x else y = y

pub ltb→lt : (a b : ℕ) → ltb a b ≡ true → a < b
ltb→lt a b h = ground arith

pub lt→ltb : (a b : ℕ) → a < b → ltb a b ≡ true
lt→ltb a b h = ground arith

pub le→ltb : (a b : ℕ) → b ≤ a → ltb a b ≡ false
le→ltb a b h = ground arith

pub ltb→le : (a b : ℕ) → ltb a b ≡ false → b ≤ a
ltb→le a b h = ground arith

pub ==_iff : (a b : ℕ) → ((a == b) ≡ true) ↔ (a ≡ b)
==_iff a b = ground arith

pub ==_refl : (a : ℕ) → (a == a) ≡ true
==_refl a = ground arith

pub &&-eq-true : (a b : Bool) → (a && b) ≡ true → (a ≡ true) × (b ≡ true)
&&-eq-true a b h = ground arith

pub iff_trans {ℓ κ ι} : {P : Type ℓ} {Q : Type κ} {R : Type ι} → P ↔ Q → Q ↔ R → P ↔ R
iff_trans f g = (λ p. g.0 (f.0 p), λ r. f.1 (g.1 r))

pub iff_refl {ℓ} : (P : Type ℓ) → P ↔ P
iff_refl P = (λ p. p, λ p. p)

-- Equal tests fail together.
pub same_iff : {a b c : Bool} → a ≡ b → (a ≡ c) ↔ (b ≡ c)
same_iff e = (λ h. sym e ∙ h, λ h. e ∙ h)

pub both_iff {ℓ κ ι μ} :
    {P : Type ℓ} {Q : Type κ} {R : Type ι} {S : Type μ} → P ↔ Q → R ↔ S → (P × R) ↔ (Q × S)
both_iff f g = (λ p. (f.0 p.0, g.0 p.1), λ q. (f.1 q.0, g.1 q.1))

pub not_iff : (b : Bool) → (not b ≡ true) ↔ (b ≡ false)
not_iff true = (λ h. cc, λ h. cc)
not_iff false = (λ _. refl, λ _. refl)

pub or_false_iff : (a b : Bool) → ((a || b) ≡ false) ↔ ((a ≡ false) × (b ≡ false))
or_false_iff a b = ground arith

-- Two tests that pass together are one.
pub same_test : (a b : Bool) → (a ≡ true) ↔ (b ≡ true) → a ≡ b
same_test true true means = refl
same_test true false means = sym (means.0 refl)
same_test false true means = means.1 refl
same_test false false means = refl

pub or_nothing : (a : Bool) → a ≡ (a || false)
or_nothing a = ground arith

pub or_swap : (a b c : Bool) → ((a || b) || c) ≡ (b || (a || c))
or_swap a b c = ground arith

pub or_true : (a : Bool) {b : Bool} → b ≡ true → (a || b) ≡ true
or_true true e = refl
or_true false e = e

pub or_rest : {a b : Bool} → (a || b) ≡ true → a ≡ false → b ≡ true
or_rest {a = true} h e = cc
or_rest {a = false} h e = h

pub and_iff :
    {P Q : Type 0} {a b : Bool} → (a ≡ true) ↔ P → (b ≡ true) ↔ Q → ((a && b) ≡ true) ↔ (P × Q)
and_iff {a = a} {b = b} means after = (
  λ h. let both = &&-eq-true a b h in (means.0 both.0, after.0 both.1),
  λ both. let first = means.1 both.0 in let second = after.1 both.1 in rw (first, second) refl,
)

pub ||-eq-false : (a b : Bool) → (a || b) ≡ false → (a ≡ false) × (b ≡ false)
||-eq-false a b h = ground arith

-- To split on a computed value and keep the equation.
pub Bool-cases : (b : Bool) → (b ≡ true) ⊎ (b ≡ false)
Bool-cases true = inl refl
Bool-cases false = inr refl

pub Option-cases {ℓ} : {A : Type ℓ} (o : Option A) → (o ≡ none) ⊎ ((a : A) × (o ≡ some a))
Option-cases none = inl refl
Option-cases (some a) = inr (a, refl)

module _ {ℓ} {A : Type ℓ} where
  abbrev pub is_some : Option A → Bool
  is_some none = false
  is_some (some a) = true

  abbrev pub is_none : Option A → Bool
  is_none none = true
  is_none (some a) = false

  -- `is_some_and` and `is_none_or` of the language's `Option`.
  abbrev pub is_some_and : Option A → (A → Bool) → Bool
  is_some_and none p = false
  is_some_and (some a) p = p a

  abbrev pub is_none_or : Option A → (A → Bool) → Bool
  is_none_or none p = true
  is_none_or (some a) p = p a

  pub is_some_iff : (o : Option A) → (is_some o ≡ false) ↔ (o ≡ none)
  is_some_iff none = (λ _. refl, λ _. refl)
  is_some_iff (some a) = (λ h. cc, λ h. cc)
