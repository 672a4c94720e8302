-- ===== src/Prelude/Earlier.antt =====
-- Loops that compare each element with those before it.
use mathlib.Core.Path.{◌≡◌, refl}
use mathlib.Core.Logic.{◌↔◌}
use mathlib.Core.Bool.{Bool, false}
use mathlib.Core.List.{List, [], ◌∷◌, ◌++◌}
use reiny.Prelude.Tests.{iff_trans, both_iff, or_false_iff}
use reiny.Prelude.Lists.{All, any, any_after, everywhere, All-both, All-append, All-of_append}

module _ {A : Type 0} where
  -- Each element with every one behind it.
  abbrev pub Pairs : (A → A → Type 0) → List A → Type 0
  Pairs R [] = Unit {0}
  Pairs R (x ∷ xs) = All (R x) xs × Pairs R xs

  pub any-false_iff :
      {P : A → Type 0} (f : A → Bool) (xs : List A)
      → ((x : A) → (f x ≡ false) ↔ P x)
      → (any f xs ≡ false) ↔ All P xs
  any-false_iff f [] means = (λ _. tt, λ _. refl)
  any-false_iff f (x ∷ xs) means =
      iff_trans (or_false_iff (f x) (any f xs)) (both_iff (means x) (any-false_iff f xs means))

  pub any_after_iff :
      {U : A → Type 0} {R : A → A → Type 0} (refused : List A → A → Bool) (before xs : List A)
      → ((before : List A) (x : A) → (refused before x ≡ false) ↔ (U x × All (λ p. R p x) before))
      → (any_after refused before xs ≡ false)
        ↔ (All (λ p. All (R p) xs) before × (All U xs × Pairs R xs))
  any_after_iff refused before [] means = (λ _. (everywhere before (λ x. tt), (tt, tt)), λ _. refl)
  any_after_iff {U = U} {R = R} refused before (x ∷ xs) means =
      let first = means before x in
      let later = any_after_iff {U = U} {R = R} refused (before ++ (x ∷ [])) xs means in
      let here = or_false_iff (refused before x) (any_after refused (before ++ (x ∷ [])) xs) in
      let zip = All-both (λ p. R p x) (λ p. All (R p) xs) before in
      (
        λ h.
            let both = here.0 h in
            let now = first.0 both.0 in
            let rest = later.0 both.1 in
            let split = All-of_append (λ p. All (R p) xs) before (x ∷ []) rest.0 in
            (zip.1 (now.1, split.0), ((now.0, rest.1.0), (split.1.0, rest.1.1))),
        λ h.
            let split = zip.0 h.0 in
            here.1 (
              first.1 (h.1.0.0, split.0),
              later.1 (
                All-append (λ p. All (R p) xs) before (x ∷ []) split.1 (h.1.1.0, tt),
                (h.1.0.1, h.1.1.1),
              ),
            ),
      )
