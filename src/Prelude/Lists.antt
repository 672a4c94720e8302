-- ===== src/Prelude/Lists.antt =====
-- Lists measured and cut by native numbers, under the library's names, and slot tables.
use Prim.Native.Nat.{ℕ, zero, suc, ◌+◌, ◌-◌, ◌≤◌, min}
use mathlib.Core.Path.{◌≡◌, refl, sym, ap, ◌∙◌}
use mathlib.Core.List.{List, [], ◌∷◌, ◌++◌, map}
use mathlib.Core.Bool.{Bool, true, false, ◌&&◌, ◌||◌}
use mathlib.Core.Option.{Option, none, some}
use mathlib.Core.Logic.{◌↔◌}
use native.Mathlib.Omega.{arith}

module _ {ℓ} {A : Type ℓ} where
  abbrev pub length : List A → ℕ
  length [] = 0
  length (x ∷ xs) = suc (length xs)

  abbrev pub take : ℕ → List A → List A
  take zero xs = []
  take (suc n) [] = []
  take (suc n) (x ∷ xs) = x ∷ take n xs

  abbrev pub drop : ℕ → List A → List A
  drop zero xs = xs
  drop (suc n) [] = []
  drop (suc n) (x ∷ xs) = drop n xs

  abbrev pub replicate : ℕ → A → List A
  replicate zero a = []
  replicate (suc n) a = a ∷ replicate n a

  abbrev pub get_elem? : List A → ℕ → Option A
  get_elem? [] i = none
  get_elem? (x ∷ xs) zero = some x
  get_elem? (x ∷ xs) (suc i) = get_elem? xs i

  abbrev pub get_or : List A → ℕ → A → A
  get_or [] i d = d
  get_or (x ∷ xs) zero d = x
  get_or (x ∷ xs) (suc i) d = get_or xs i d

  abbrev pub any : (A → Bool) → List A → Bool
  any p [] = false
  any p (x ∷ xs) = p x || any p xs

  abbrev pub all : (A → Bool) → List A → Bool
  all p [] = true
  all p (x ∷ xs) = p x && all p xs

  -- The first element that passes.
  abbrev pub find? : (A → Bool) → List A → Option A
  find? p [] = none
  find? p (x ∷ xs) = elim (p x) [ true ↦ some x | false ↦ find? p xs ]

  abbrev pub All {κ} : (A → Type κ) → List A → Type κ
  All P [] = Unit {κ}
  All P (x ∷ xs) = P x × All P xs

module _ {ℓ} {A : Type ℓ} where
  pub length-append : (xs ys : List A) → length (xs ++ ys) ≡ length xs + length ys
  length-append [] ys = omega arith
  length-append (x ∷ xs) ys = omega (arith, length-append xs ys)

  pub take-append-drop : (n : ℕ) (xs : List A) → take n xs ++ drop n xs ≡ xs
  take-append-drop zero xs = refl
  take-append-drop (suc n) [] = refl
  take-append-drop (suc n) (x ∷ xs) = ap (◌∷◌ x) (take-append-drop n xs)

  pub length-take : (n : ℕ) (xs : List A) → length (take n xs) ≡ min n (length xs)
  length-take zero xs = omega arith
  length-take (suc n) [] = omega arith
  length-take (suc n) (x ∷ xs) = omega (arith, length-take n xs)

  pub length-drop : (n : ℕ) (xs : List A) → length (drop n xs) ≡ length xs - n
  length-drop zero xs = omega arith
  length-drop (suc n) [] = omega arith
  length-drop (suc n) (x ∷ xs) = omega (arith, length-drop n xs)

  pub length-replicate : (n : ℕ) (a : A) → length (replicate n a) ≡ n
  length-replicate zero a = refl
  length-replicate (suc n) a = ap suc (length-replicate n a)

  -- Cutting a list where its first part ends.
  pub take-append_length : (xs ys : List A) (n : ℕ) → n ≡ length xs → take n (xs ++ ys) ≡ xs
  take-append_length [] ys zero h = refl
  take-append_length [] ys (suc n) h = absurd (omega arith)
  take-append_length (x ∷ xs) ys zero h = absurd (omega arith)
  take-append_length (x ∷ xs) ys (suc n) h = ap (◌∷◌ x) (take-append_length xs ys n (omega arith))

  pub drop-append_length : (xs ys : List A) (n : ℕ) → n ≡ length xs → drop n (xs ++ ys) ≡ ys
  drop-append_length [] ys zero h = refl
  drop-append_length [] ys (suc n) h = absurd (omega arith)
  drop-append_length (x ∷ xs) ys zero h = absurd (omega arith)
  drop-append_length (x ∷ xs) ys (suc n) h = drop-append_length xs ys n (omega arith)

  pub drop-nil : (n : ℕ) → drop n (let xs : List A = [] in xs) ≡ []
  drop-nil zero = refl
  drop-nil (suc n) = refl

  pub take-nil : (n : ℕ) → take n (let xs : List A = [] in xs) ≡ []
  take-nil zero = refl
  take-nil (suc n) = refl

  pub drop-drop : (m n : ℕ) (xs : List A) → drop n (drop m xs) ≡ drop (m + n) xs
  drop-drop zero n xs = ap (λ k. drop k xs) (omega arith)
  drop-drop (suc m) n [] = drop-nil n ∙ sym (drop-nil (suc m + n))
  drop-drop (suc m) n (x ∷ xs) =
      let step : suc m + n ≡ suc (m + n) = omega arith in rw step (drop-drop m n xs)

  -- Cutting inside the second part.
  pub drop-append_add : (xs ys : List A) (n : ℕ) → drop (length xs + n) (xs ++ ys) ≡ drop n ys
  drop-append_add xs ys n =
      sym (drop-drop (length xs) n (xs ++ ys))
      ∙ ap (drop n) (drop-append_length xs ys (length xs) refl)

  pub take-append_add : (xs ys : List A) (n : ℕ) → take (length xs + n) (xs ++ ys) ≡ xs ++ take n ys
  take-append_add [] ys n = ap (λ k. take k ys) (omega arith)
  take-append_add (x ∷ xs) ys n =
      let step : suc (length xs) + n ≡ suc (length xs + n) = omega arith in
      rw step (ap (◌∷◌ x) (take-append_add xs ys n))

  pub drop-take : (n k : ℕ) (xs : List A) → drop n (take k xs) ≡ take (k - n) (drop n xs)
  drop-take zero k xs = let same : k ≡ k - 0 = omega arith in ap (λ m. take m xs) same
  drop-take (suc n) zero xs =
      let same : 0 ≡ 0 - suc n = omega arith in ap (λ m. take m (drop (suc n) xs)) same
  drop-take (suc n) (suc k) [] = sym (take-nil (suc k - suc n))
  drop-take (suc n) (suc k) (x ∷ xs) =
      let same : k - n ≡ suc k - suc n = omega arith in
      drop-take n k xs ∙ ap (λ m. take m (drop n xs)) same

  pub take-take-min : (n k : ℕ) (xs : List A) → take n (take k xs) ≡ take (min k n) xs
  take-take-min zero k xs = let same : 0 ≡ min k 0 = omega arith in ap (λ m. take m xs) same
  take-take-min (suc n) zero xs =
      let same : 0 ≡ min 0 (suc n) = omega arith in ap (λ m. take m xs) same
  take-take-min (suc n) (suc k) [] = sym (take-nil (min (suc k) (suc n)))
  take-take-min (suc n) (suc k) (x ∷ xs) =
      let same : suc (min k n) ≡ min (suc k) (suc n) = omega arith in
      ap (◌∷◌ x) (take-take-min n k xs) ∙ ap (λ m. take m (x ∷ xs)) same

  pub drop-min : (n : ℕ) (xs : List A) → drop (min (length xs) n) xs ≡ drop n xs
  drop-min zero xs = let same : min (length xs) 0 ≡ 0 = omega arith in ap (λ m. drop m xs) same
  drop-min (suc n) [] = drop-nil (min 0 (suc n))
  drop-min (suc n) (x ∷ xs) =
      let same : min (suc (length xs)) (suc n) ≡ suc (min (length xs) n) = omega arith in
      ap (λ m. drop m (x ∷ xs)) same ∙ drop-min n xs

  pub take-all : (xs : List A) (n : ℕ) → length xs ≤ n → take n xs ≡ xs
  take-all [] zero h = refl
  take-all [] (suc n) h = refl
  take-all (x ∷ xs) zero h = absurd (omega arith)
  take-all (x ∷ xs) (suc n) h = ap (◌∷◌ x) (take-all xs n (omega arith))

  pub drop-all : (xs : List A) (n : ℕ) → length xs ≤ n → drop n xs ≡ []
  drop-all [] zero h = refl
  drop-all [] (suc n) h = refl
  drop-all (x ∷ xs) zero h = absurd (omega arith)
  drop-all (x ∷ xs) (suc n) h = drop-all xs n (omega arith)

  pub All-append {κ} : (P : A → Type κ) (xs ys : List A) → All P xs → All P ys → All P (xs ++ ys)
  All-append P [] ys p q = q
  All-append P (x ∷ xs) ys p q = (p.0, All-append P xs ys p.1 q)

  pub everywhere {κ} : {P : A → Type κ} (xs : List A) → ((x : A) → P x) → All P xs
  everywhere [] always = tt
  everywhere (x ∷ xs) always = (always x, everywhere xs always)

  pub All-map {κ ι} :
      (P : A → Type κ) (Q : A → Type ι) (xs : List A) → ((x : A) → P x → Q x) → All P xs → All Q xs
  All-map P Q [] by p = tt
  All-map P Q (x ∷ xs) by p = (by x p.0, All-map P Q xs by p.1)

  pub All-iff {κ ι} :
      {P : A → Type κ} {Q : A → Type ι} (xs : List A) → ((x : A) → P x ↔ Q x) → All P xs ↔ All Q xs
  All-iff [] means = (λ _. tt, λ _. tt)
  All-iff (x ∷ xs) means =
      let rest = All-iff xs means in
      (λ p. ((means x).0 p.0, rest.0 p.1), λ q. ((means x).1 q.0, rest.1 q.1))

  pub All-both {κ ι} :
      (P : A → Type κ) (Q : A → Type ι) (xs : List A)
      → All (λ x. P x × Q x) xs ↔ (All P xs × All Q xs)
  All-both P Q [] = (λ _. (tt, tt), λ _. tt)
  All-both P Q (x ∷ xs) =
      let rest = All-both P Q xs in
      (
        λ a. let later = rest.0 a.1 in ((a.0.0, later.0), (a.0.1, later.1)),
        λ b. ((b.0.0, b.1.0), rest.1 (b.0.1, b.1.1)),
      )

  -- A search finds nothing where nothing passes.
  find?_cons :
      (p : A → Bool) (x : A) (xs : List A) (b : Bool)
      → p x ≡ b
      → (find? p (x ∷ xs) ≡ none) ↔ ((b ≡ false) × (find? p xs ≡ none))
  find?_cons p x xs true e = (
    λ h. let found : find? p (x ∷ xs) ≡ some x = rw (find?, e) refl in cc,
    λ h. let f = h.0 in cc,
  )
  find?_cons p x xs false e =
      let later : find? p (x ∷ xs) ≡ find? p xs = rw (find?, e) refl in
      (λ h. (refl, sym later ∙ h), λ h. later ∙ h.1)

  pub find?_iff : (p : A → Bool) (xs : List A) → (find? p xs ≡ none) ↔ All (λ x. p x ≡ false) xs
  find?_iff p [] = (λ _. tt, λ _. refl)
  find?_iff p (x ∷ xs) =
      let first = find?_cons p x xs (p x) refl in
      let rest = find?_iff p xs in
      (λ h. let both = first.0 h in (both.0, rest.0 both.1), λ h. first.1 (h.0, rest.1 h.1))

  pub All-of_append {κ} : (P : A → Type κ) (xs ys : List A) → All P (xs ++ ys) → All P xs × All P ys
  All-of_append P [] ys all = (tt, all)
  All-of_append P (x ∷ xs) ys all =
      let rest = All-of_append P xs ys all.1 in ((all.0, rest.0), rest.1)

  pub All-take {κ} : (P : A → Type κ) (n : ℕ) (xs : List A) → All P xs → All P (take n xs)
  All-take P zero xs p = tt
  All-take P (suc n) [] p = tt
  All-take P (suc n) (x ∷ xs) p = (p.0, All-take P n xs p.1)

  pub All-drop {κ} : (P : A → Type κ) (n : ℕ) (xs : List A) → All P xs → All P (drop n xs)
  All-drop P zero xs p = p
  All-drop P (suc n) [] p = p
  All-drop P (suc n) (x ∷ xs) p = All-drop P n xs p.1

-- `buf[at..at + b.len()].copy_from_slice(b)`, for a range inside the buffer.
module _ {ℓ} {A : Type ℓ} where
  abbrev pub splice : List A → ℕ → List A → List A
  splice buf at b = take at buf ++ (b ++ drop (at + length b) buf)

  -- `buf[from..to]`, for a range inside the buffer.
  abbrev pub slice : List A → ℕ → ℕ → List A
  slice buf from to = take (to - from) (drop from buf)

  pub length-splice :
      (buf : List A) (at : ℕ) (b : List A)
      → at + length b ≤ length buf
      → length (splice buf at b) ≡ length buf
  length-splice buf at b h = omega (
    arith,
    length-append (take at buf) (b ++ drop (at + length b) buf),
    length-append b (drop (at + length b) buf),
    length-take at buf,
    length-drop (at + length b) buf,
  )

-- `for (i, x) in xs.iter().enumerate()` where the body refuses `x` in view of `xs[..i]`, which is
-- `before`: whether some round refuses.
module _ {ℓ} {A : Type ℓ} where
  abbrev pub any_after : (List A → A → Bool) → List A → List A → Bool
  any_after refuse before [] = false
  any_after refuse before (x ∷ xs) = refuse before x || any_after refuse (before ++ (x ∷ [])) xs

-- Tables of `Option` slots, `[Option<A>; N]` in the source.
module _ {ℓ} {A : Type ℓ} where
  -- `iter().flatten()`
  abbrev pub filled : List (Option A) → List A
  filled [] = []
  filled (none ∷ slots) = filled slots
  filled (some a ∷ slots) = a ∷ filled slots

  -- `iter().all(Option::is_some)`
  abbrev pub is_full : List (Option A) → Bool
  is_full [] = true
  is_full (none ∷ slots) = false
  is_full (some a ∷ slots) = is_full slots

  -- `a` in the first free slot; with none free the table is returned as it is.
  abbrev pub fill_free : A → List (Option A) → List (Option A)
  fill_free a [] = []
  fill_free a (none ∷ slots) = some a ∷ slots
  fill_free a (some b ∷ slots) = some b ∷ fill_free a slots

  -- The first slot whose content passes is emptied.
  abbrev pub clear_first : (A → Bool) → List (Option A) → List (Option A)
  clear_first p [] = []
  clear_first p (none ∷ slots) = none ∷ clear_first p slots
  clear_first p (some a ∷ slots) = elim (p a) [
    | true ↦ none ∷ slots
    | false ↦ some a ∷ clear_first p slots
  ]

pub All-of_map {ℓ κ ι} :
    {A : Type ℓ} {B : Type κ} (f : A → B) (P : B → Type ι) (xs : List A)
    → All P (map f xs)
    → All (λ x. P (f x)) xs
All-of_map f P [] all = tt
All-of_map f P (x ∷ xs) all = (all.0, All-of_map f P xs all.1)
