-- ===== src/Prelude/Equality.antt =====
-- The language's derived `PartialEq` as an interface, with its instances.
use Prim.Native.Nat.{ℕ}
use mathlib.Core.Path.{◌≡◌, refl, sym, ap, ◌∙◌}
use mathlib.Core.Logic.{◌↔◌}
use mathlib.Core.List.{List, [], ◌∷◌}
use mathlib.Core.Bool.{Bool, true, false, ◌&&◌}
use mathlib.Core.Option.{Option, none, some}
use native.Mathlib.Omega.{arith}
use reiny.Prelude.Tests.{◌==◌, ==_iff}

pub record Equal (A : Type 0) : Type 0 where
  pub eq : A → A → Bool
  pub eq_iff : (a b : A) → (eq a b ≡ true) ↔ (a ≡ b)

infix 50 ◌===◌
abbrev pub ◌===◌ : {A : Type 0} ⦃e : Equal A⦄ → A → A → Bool
◌===◌ ⦃e⦄ = e.eq

pub ===_iff : {A : Type 0} ⦃e : Equal A⦄ (a b : A) → ((a === b) ≡ true) ↔ (a ≡ b)
===_iff ⦃e⦄ = e.eq_iff

instance abbrev pub nat_equal : Equal ℕ
nat_equal = record { eq = ◌==◌; eq_iff = ==_iff }

abbrev pub bool_eq : Bool → Bool → Bool
bool_eq true true = true
bool_eq false false = true
bool_eq _ _ = false

pub bool_eq_iff : (a b : Bool) → (bool_eq a b ≡ true) ↔ (a ≡ b)
bool_eq_iff a b = ground arith

instance abbrev pub bool_equal : Equal Bool
bool_equal = record { eq = bool_eq; eq_iff = bool_eq_iff }

-- A type that another one holds a copy of.
abbrev pub equal_by :
    {A B : Type 0} ⦃e : Equal B⦄ (parts : A → B) (whole : B → A)
    → ((a : A) → whole (parts a) ≡ a)
    → Equal A
equal_by ⦃e⦄ parts whole back = record {
  eq = λ a b. e.eq (parts a) (parts b);
  eq_iff = λ a b. (
    λ same. sym (back a) ∙ ap whole ((e.eq_iff (parts a) (parts b)).0 same) ∙ back b,
    λ p. (e.eq_iff (parts a) (parts b)).1 (ap parts p),
  );
}

module _ {A B : Type 0} ⦃e : Equal A⦄ ⦃f : Equal B⦄ where
  abbrev pub pair_eq : A × B → A × B → Bool
  pair_eq x y = e.eq x.0 y.0 && f.eq x.1 y.1

  pub pair_eq_iff : (x y : A × B) → (pair_eq x y ≡ true) ↔ (x ≡ y)
  pair_eq_iff x y = ground (arith, e.eq_iff x.0 y.0, f.eq_iff x.1 y.1)

  instance abbrev pub pair_equal : Equal (A × B)
  pair_equal = record { eq = pair_eq; eq_iff = pair_eq_iff }

module _ {A : Type 0} ⦃e : Equal A⦄ where
  abbrev pub option_eq : Option A → Option A → Bool
  option_eq none none = true
  option_eq (some a) (some b) = e.eq a b
  option_eq _ _ = false

  pub option_eq_iff : (x y : Option A) → (option_eq x y ≡ true) ↔ (x ≡ y)
  option_eq_iff none none = (λ _. refl, λ _. refl)
  option_eq_iff none (some b) = (λ h. cc, λ h. cc)
  option_eq_iff (some a) none = (λ h. cc, λ h. cc)
  option_eq_iff (some a) (some b) = ground (arith, e.eq_iff a b)

  instance abbrev pub option_equal : Equal (Option A)
  option_equal = record { eq = option_eq; eq_iff = option_eq_iff }

  abbrev pub list_eq : List A → List A → Bool
  list_eq [] [] = true
  list_eq (x ∷ xs) (y ∷ ys) = e.eq x y && list_eq xs ys
  list_eq _ _ = false

  pub list_eq_iff : (xs ys : List A) → (list_eq xs ys ≡ true) ↔ (xs ≡ ys)
  list_eq_iff [] [] = (λ _. refl, λ _. refl)
  list_eq_iff [] (y ∷ ys) = (λ h. cc, λ h. cc)
  list_eq_iff (x ∷ xs) [] = (λ h. cc, λ h. cc)
  list_eq_iff (x ∷ xs) (y ∷ ys) = ground (arith, e.eq_iff x y, list_eq_iff xs ys)

  instance abbrev pub list_equal : Equal (List A)
  list_equal = record { eq = list_eq; eq_iff = list_eq_iff }
