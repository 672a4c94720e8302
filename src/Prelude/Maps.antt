-- ===== src/Prelude/Maps.antt =====
-- The language's `BTreeMap` and `BTreeSet` as lists in the order of their keys, over an interface of
-- ordered keys.
use mathlib.Core.Path.{◌≡◌, refl, sym, ap, ◌∙◌}
use mathlib.Core.Logic.{◌↔◌, inl, inr}
use mathlib.Core.List.{List, [], ◌∷◌}
use mathlib.Core.Bool.{Bool, true, false, ◌&&◌, ◌||◌}
use mathlib.Core.Option.{Option, none, some}
use native.Mathlib.Omega.{arith}
use reiny.Prelude.Tests.{
  if◌then◌else◌, Bool-cases, is_some, ltb, ◌==◌, iff_refl, iff_trans, both_iff, or_false_iff,
  same_iff,
}
use reiny.Prelude.Lists.{All, All-iff, All-both, All-map}
use reiny.Prelude.Words.{Bytes, bytes_eq, bytes_eq_iff}

-- `Ord`: a key's equality and its order.
pub record Key (K : Type 0) : Type 0 where
  pub same : K → K → Bool
  pub before : K → K → Bool
  pub same_iff : (a b : K) → (same a b ≡ true) ↔ (a ≡ b)

-- The order of strings is that of their bytes.
unfoldable pub bytes_lt : Bytes → Bytes → Bool
bytes_lt [] [] = false
bytes_lt [] (y ∷ ys) = true
bytes_lt (x ∷ xs) [] = false
bytes_lt (x ∷ xs) (y ∷ ys) = ltb x y || (x == y && bytes_lt xs ys)

instance abbrev pub bytes_key : Key Bytes
bytes_key = record { same = bytes_eq; before = bytes_lt; same_iff = bytes_eq_iff }

abbrev pub Map : Type 0 → Type 0 → Type 0
Map K V = List (K × V)

module _ {K V : Type 0} where
  abbrev pub keys : Map K V → List K
  keys [] = []
  keys (entry ∷ rest) = entry.0 ∷ keys rest

  abbrev pub values : Map K V → List V
  values [] = []
  values (entry ∷ rest) = entry.1 ∷ values rest

module _ {K : Type 0} ⦃key : Key K⦄ where
  abbrev pub same_key : K → K → Bool
  same_key = key.same

  pub same_key_refl : (k : K) → same_key k k ≡ true
  same_key_refl k = (key.same_iff k k).1 refl

  pub same_key-eq : (a b : K) → same_key a b ≡ true → a ≡ b
  same_key-eq a b = (key.same_iff a b).0

  pub same_key_cong : (a b j : K) → same_key a b ≡ true → same_key a j ≡ same_key b j
  same_key_cong a b j e = ap (λ k. same_key k j) (same_key-eq a b e)

  pub same_key_apart : (a b : K) → same_key a b ≡ false → same_key b a ≡ false
  same_key_apart a b h = elim (Bool-cases (same_key b a)) [
    | inl e ↦
        let p = same_key-eq b a e in let self : same_key a b ≡ true = rw p (same_key_refl a) in cc
    | inr e ↦ e
  ]

  -- `BTreeSet`, of which the elements are listed in their order.
  abbrev pub contains : List K → K → Bool
  contains [] k = false
  contains (x ∷ xs) k = same_key x k || contains xs k

  -- No item stands in the list twice.
  abbrev pub AreDistinct : List K → Type 0
  AreDistinct [] = Unit {0}
  AreDistinct (x ∷ xs) = (contains xs x ≡ false) × AreDistinct xs

  -- A new item, in front of the first one that comes behind it.
  abbrev pub set_place : K → List K → List K
  set_place k [] = k ∷ []
  set_place k (x ∷ xs) =
      let later = x ∷ set_place k xs in if key.before k x then k ∷ x ∷ xs else later

  unfoldable pub set_insert : K → List K → List K
  set_insert k xs = if contains xs k then xs else set_place k xs

  unfoldable pub set_remove : K → List K → List K
  set_remove k [] = []
  set_remove k (x ∷ xs) = let later = x ∷ set_remove k xs in if same_key x k then xs else later

module _ {K V : Type 0} ⦃key : Key K⦄ where
  abbrev pub get : Map K V → K → Option V
  get [] k = none
  get (entry ∷ rest) k = if same_key entry.0 k then some entry.1 else get rest k

  abbrev pub contains_key : Map K V → K → Bool
  contains_key m k = is_some (get m k)

  abbrev pub replace : K → V → Map K V → Map K V
  replace k v [] = []
  replace k v (entry ∷ rest) =
      let later = entry ∷ replace k v rest in if same_key entry.0 k then (k, v) ∷ rest else later

  abbrev pub place : K → V → Map K V → Map K V
  place k v [] = (k, v) ∷ []
  place k v (entry ∷ rest) =
      let later = entry ∷ place k v rest in
      if key.before k entry.0 then (k, v) ∷ entry ∷ rest else later

  -- The value of the key is replaced, or a new entry is put in its place.
  unfoldable pub insert : K → V → Map K V → Map K V
  insert k v m = if contains_key m k then replace k v m else place k v m

  unfoldable pub remove : K → Map K V → Map K V
  remove k [] = []
  remove k (entry ∷ rest) =
      let later = entry ∷ remove k rest in if same_key entry.0 k then rest else later

  -- `m.extend(entries)`
  unfoldable pub extend : Map K V → Map K V → Map K V
  extend m [] = m
  extend m (entry ∷ rest) = extend (insert entry.0 entry.1 m) rest

module _ {K : Type 0} ⦃key : Key K⦄ where
  pub contains-set_place :
      (j k : K) (xs : List K) → contains (set_place k xs) j ≡ (same_key k j || contains xs j)
  contains-set_place j k [] = refl
  contains-set_place j k (x ∷ xs) = ground (arith, contains-set_place j k xs)

  pub contains_cong : (j k : K) (xs : List K) → same_key k j ≡ true → contains xs k ≡ contains xs j
  contains_cong j k xs e = ap (contains xs) (same_key-eq k j e)

  pub contains-set_insert :
      (j k : K) (xs : List K) → contains (set_insert k xs) j ≡ (same_key k j || contains xs j)
  unfolding set_insert
  contains-set_insert j k xs = ground (arith, contains-set_place j k xs, contains_cong j k xs)

  pub contains-eq-false :
      (xs : List K) (k : K) → (contains xs k ≡ false) ↔ All (λ x. same_key x k ≡ false) xs
  contains-eq-false [] k = (λ _. tt, λ _. refl)
  contains-eq-false (x ∷ xs) k =
      iff_trans (or_false_iff (same_key x k) (contains xs k))
        (both_iff (iff_refl _) (contains-eq-false xs k))

  -- Items outside a set with one more are outside the set, and the one is not among them.
  pub outside-set_insert :
      (k : K) (seen : List K) (items : List K)
      → All (λ item. contains (set_insert k seen) item ≡ false) items
      → (contains items k ≡ false) × All (λ item. contains seen item ≡ false) items
  outside-set_insert k seen items outside =
      let each =
        (All-iff items
            (λ item. iff_trans (same_iff (contains-set_insert item k seen)) (or_false_iff _ _))).0
          outside in
      let parts = (All-both _ _ items).0 each in
      (
        (contains-eq-false items k).1 (All-map _ _ items (λ item. same_key_apart k item) parts.0),
        parts.1,
      )

  pub contains-set_remove :
      (j k : K) (xs : List K) → contains (set_remove k xs) j ≡ true → contains xs j ≡ true
  unfolding set_remove
  contains-set_remove j k [] h = h
  contains-set_remove j k (x ∷ xs) h = ground (arith, contains-set_remove j k xs)

  pub contains-set_remove_other :
      (j k : K) (xs : List K) → same_key k j ≡ false → contains (set_remove k xs) j ≡ contains xs j
  unfolding set_remove
  contains-set_remove_other j k [] h = refl
  contains-set_remove_other j k (x ∷ xs) h =
      ground (arith, contains-set_remove_other j k xs h, same_key_cong x k j)

module _ {K V : Type 0} ⦃key : Key K⦄ where
  get-replace_same :
      (k : K) (v : V) (m : Map K V) → contains_key m k ≡ true → get (replace k v m) k ≡ some v
  get-replace_same k v [] held = cc
  get-replace_same k v (entry ∷ rest) held =
      ground (arith, get-replace_same k v rest, same_key_refl k)

  get-place_same :
      (k : K) (v : V) (m : Map K V) → contains_key m k ≡ false → get (place k v m) k ≡ some v
  get-place_same k v [] held = rw (same_key_refl k) refl
  get-place_same k v (entry ∷ rest) held = ground (arith, get-place_same k v rest, same_key_refl k)

  pub get-insert_same : (k : K) (v : V) (m : Map K V) → get (insert k v m) k ≡ some v
  unfolding insert
  get-insert_same k v m = ground (arith, get-replace_same k v m, get-place_same k v m)

  get-replace_other :
      (j k : K) (v : V) (m : Map K V) → same_key k j ≡ false → get (replace k v m) j ≡ get m j
  get-replace_other j k v [] h = refl
  get-replace_other j k v (entry ∷ rest) h =
      ground (arith, get-replace_other j k v rest h, same_key_cong entry.0 k j)

  get-place_other :
      (j k : K) (v : V) (m : Map K V) → same_key k j ≡ false → get (place k v m) j ≡ get m j
  get-place_other j k v [] h = rw h refl
  get-place_other j k v (entry ∷ rest) h = ground (arith, get-place_other j k v rest h)

  pub get-insert_other :
      (j k : K) (v : V) (m : Map K V) → same_key k j ≡ false → get (insert k v m) j ≡ get m j
  unfolding insert
  get-insert_other j k v m h =
      ground (arith, get-replace_other j k v m h, get-place_other j k v m h)

  pub get-insert_hit :
      (j k : K) (v : V) (m : Map K V) → same_key k j ≡ true → get (insert k v m) j ≡ some v
  get-insert_hit j k v m e =
      ap (get (insert k v m)) (sym (same_key-eq k j e)) ∙ get-insert_same k v m

  pub get-insert :
      (j k : K) (v : V) (m : Map K V)
      → get (insert k v m) j ≡ (if same_key k j then some v else get m j)
  get-insert j k v m = elim (Bool-cases (same_key k j)) [
    | inl e ↦ rw e (get-insert_hit j k v m e)
    | inr e ↦ rw e (get-insert_other j k v m e)
  ]

  pub insert-eq-none :
      (j k : K) (v : V) (m : Map K V)
      → (get (insert k v m) j ≡ none) ↔ ((same_key k j ≡ false) × (get m j ≡ none))
  insert-eq-none j k v m = elim (Bool-cases (same_key k j)) [
    | inl e ↦ let found = get-insert_hit j k v m e in (λ h. cc, λ h. let f = h.0 in cc)
    | inr e ↦ let kept = get-insert_other j k v m e in (λ h. (e, sym kept ∙ h), λ h. kept ∙ h.1)
  ]
