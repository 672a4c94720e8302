-- ===== src/Prelude/Sets.antt =====
-- Laws of the sets and of the keys of the maps: their items are distinct, and stay so.
use Prim.Native.Nat.{suc}
use mathlib.Core.Path.{◌≡◌, refl, sym, ap, ◌∙◌}
use mathlib.Core.Logic.{inl, inr}
use mathlib.Core.List.{List, [], ◌∷◌, ◌++◌}
use mathlib.Core.Bool.{true, false, ◌||◌}
use mathlib.Core.Option.{some}
use native.Mathlib.Omega.{arith}
use reiny.Prelude.Tests.{Bool-cases, is_some, or_false_iff, or_true, or_rest, or_nothing, or_swap}
use reiny.Prelude.Lists.{All, length}
use reiny.Prelude.Maps.{
  Key, Map, keys, same_key, same_key_refl, same_key-eq, same_key_apart, contains, AreDistinct,
  set_insert, set_place, set_remove, contains-eq-false, contains-set_place, contains-set_remove,
  get, contains_key, insert, replace, place, remove, extend, get-insert_hit, get-insert_other,
}

module _ {K : Type 0} ⦃key : Key K⦄ where
  pub contains-append :
      (xs ys : List K) (k : K) → contains (xs ++ ys) k ≡ (contains xs k || contains ys k)
  contains-append [] ys k = refl
  contains-append (x ∷ xs) ys k = ground (arith, contains-append xs ys k)

  pub set_place-AreDistinct :
      (k : K) (xs : List K) → contains xs k ≡ false → AreDistinct xs → AreDistinct (set_place k xs)
  set_place-AreDistinct k [] new distinct = (refl, tt)
  set_place-AreDistinct k (x ∷ xs) new distinct =
      ground (arith, set_place-AreDistinct k xs, contains-set_place x k xs, same_key_apart x k)

  pub set_insert-AreDistinct :
      (k : K) (xs : List K) → AreDistinct xs → AreDistinct (set_insert k xs)
  unfolding set_insert
  set_insert-AreDistinct k xs distinct = ground (arith, set_place-AreDistinct k xs)

  not_contains-set_remove :
      (j k : K) (xs : List K) → contains xs j ≡ false → contains (set_remove k xs) j ≡ false
  not_contains-set_remove j k xs h = elim (Bool-cases (contains (set_remove k xs) j)) [
    | inl e ↦ let held = contains-set_remove j k xs e in cc
    | inr e ↦ e
  ]

  pub set_remove-AreDistinct :
      (k : K) (xs : List K) → AreDistinct xs → AreDistinct (set_remove k xs)
  unfolding set_remove
  set_remove-AreDistinct k [] distinct = tt
  set_remove-AreDistinct k (x ∷ xs) distinct =
      ground (arith, set_remove-AreDistinct k xs, not_contains-set_remove x k xs)

  -- An item is gone from a set that it is removed from.
  pub contains-set_remove_same :
      (k : K) (xs : List K) → AreDistinct xs → contains (set_remove k xs) k ≡ false
  unfolding set_remove
  contains-set_remove_same k [] distinct = refl
  contains-set_remove_same k (x ∷ xs) distinct = elim (Bool-cases (same_key x k)) [
    | inl e ↦
        let gone : contains xs k ≡ false = rw (sym (same_key-eq x k e)) distinct.0 in rw e gone
    | inr e ↦ rw (e, e) (contains-set_remove_same k xs distinct.1)
  ]

  pub length-set_remove :
      (k : K) (xs : List K) → contains xs k ≡ true → suc (length (set_remove k xs)) ≡ length xs
  unfolding set_remove
  length-set_remove k [] held = cc
  length-set_remove k (x ∷ xs) held = ground (arith, length-set_remove k xs)

module _ {K V : Type 0} ⦃key : Key K⦄ where
  pub contains-keys : (m : Map K V) (k : K) → contains (keys m) k ≡ contains_key m k
  contains-keys [] k = refl
  contains-keys (entry ∷ rest) k = ground (arith, contains-keys rest k)

  keys-replace : (k : K) (v : V) (m : Map K V) → keys (replace k v m) ≡ keys m
  keys-replace k v [] = refl
  keys-replace k v (entry ∷ rest) = elim (Bool-cases (same_key entry.0 k)) [
    | inl e ↦ rw e (ap (λ j. j ∷ keys rest) (sym (same_key-eq entry.0 k e)))
    | inr e ↦ rw e (ap (◌∷◌ entry.0) (keys-replace k v rest))
  ]

  keys-place : (k : K) (v : V) (m : Map K V) → keys (place k v m) ≡ set_place k (keys m)
  keys-place k v [] = refl
  keys-place k v (entry ∷ rest) = elim (Bool-cases (key.before k entry.0)) [
    | inl e ↦ rw e refl
    | inr e ↦ rw e (ap (◌∷◌ entry.0) (keys-place k v rest))
  ]

  pub keys-insert : (k : K) (v : V) (m : Map K V) → keys (insert k v m) ≡ set_insert k (keys m)
  unfolding insert set_insert
  keys-insert k v m = ground (arith, keys-replace k v m, keys-place k v m, contains-keys m k)

  pub keys-remove : (k : K) (m : Map K V) → keys (remove k m) ≡ set_remove k (keys m)
  unfolding remove set_remove
  keys-remove k [] = refl
  keys-remove k (entry ∷ rest) = ground (arith, keys-remove k rest)

module _ {K : Type 0} ⦃key : Key K⦄ where
  apart_by :
      (P : K → Type 0) (k : K) (xs : List K)
      → contains xs k ≡ false
      → All P xs
      → All (λ x. P x × (same_key k x ≡ false)) xs
  apart_by P k [] absent all = tt
  apart_by P k (x ∷ xs) absent all =
      let both = (or_false_iff (same_key x k) (contains xs k)).0 absent in
      ((all.0, same_key_apart x k both.0), apart_by P k xs both.1 all.1)

  -- What is left of a set differs from what was removed.
  pub All-set_remove :
      (P : K → Type 0) (k : K) (xs : List K)
      → AreDistinct xs
      → All P xs
      → All (λ x. P x × (same_key k x ≡ false)) (set_remove k xs)
  unfolding set_remove
  All-set_remove P k [] distinct all = tt
  All-set_remove P k (x ∷ xs) distinct all = elim (Bool-cases (same_key x k)) [
    | inl e ↦
        let absent : contains xs k ≡ false = rw (sym (same_key-eq x k e)) distinct.0 in
        rw e (apart_by P k xs absent all.1)
    | inr e ↦ rw e ((all.0, same_key_apart x k e), All-set_remove P k xs distinct.1 all.1)
  ]

  -- An item of a list has what holds of all of them.
  pub All-contains : (P : K → Type 0) (xs : List K) (k : K) → All P xs → contains xs k ≡ true → P k
  All-contains P [] k all held = cc
  All-contains P (x ∷ xs) k all held = elim (Bool-cases (same_key x k)) [
    | inl e ↦ rw (sym (same_key-eq x k e)) all.0
    | inr e ↦ All-contains P xs k all.1 (or_rest held e)
  ]

  -- What holds of each item that a list contains, holds of all of them.
  pub contains-All :
      (P : K → Type 0) (xs : List K) → ((k : K) → contains xs k ≡ true → P k) → All P xs
  contains-All P [] each = tt
  contains-All P (x ∷ xs) each =
      let first : (same_key x x || contains xs x) ≡ true = rw (same_key_refl x) refl in
      (each x first, contains-All P xs (λ k held. each k (or_true (same_key x k) held)))

module _ {K V : Type 0} ⦃key : Key K⦄ where
  pub All-insert :
      (P : K × V → Type 0) (k : K) (v : V) (m : Map K V) → P (k, v) → All P m → All P (insert k v m)
  unfolding insert
  All-insert P k v m new all = elim (Bool-cases (contains_key m k)) [
    | inl e ↦ rw e (All-replace m all)
    | inr e ↦ rw e (All-place m all)
  ]
    where
      All-replace : (n : Map K V) → All P n → All P (replace k v n)
      All-replace [] old = tt
      All-replace (entry ∷ rest) old = elim (Bool-cases (same_key entry.0 k)) [
        | inl e ↦ rw e (new, old.1)
        | inr e ↦ rw e (old.0, All-replace rest old.1)
      ]

      All-place : (n : Map K V) → All P n → All P (place k v n)
      All-place [] old = (new, tt)
      All-place (entry ∷ rest) old = elim (Bool-cases (key.before k entry.0)) [
        | inl e ↦ rw e (new, old)
        | inr e ↦ rw e (old.0, All-place rest old.1)
      ]

  pub get_head :
      (entry : K × V) (rest : Map K V) (k : K)
      → same_key entry.0 k ≡ true
      → get (entry ∷ rest) k ≡ some entry.1
  get_head entry rest k e = rw e refl

  pub get_tail :
      (entry : K × V) (rest : Map K V) (k : K)
      → same_key entry.0 k ≡ false
      → get (entry ∷ rest) k ≡ get rest k
  get_tail entry rest k e = rw e refl

  -- A value that is found has what holds of all entries.
  pub All-get :
      (P : K × V → Type 0) (m : Map K V) (k : K) (v : V) → All P m → get m k ≡ some v → P (k, v)
  All-get P [] k v all found = cc
  All-get P (entry ∷ rest) k v all found = elim (Bool-cases (same_key entry.0 k)) [
    | inl e ↦
        let same = sym (get_head entry rest k e) ∙ found in
        let value : entry.1 ≡ v = cc in rw (sym (same_key-eq entry.0 k e), sym value) all.0
    | inr e ↦ All-get P rest k v all.1 (sym (get_tail entry rest k e) ∙ found)
  ]

  -- Under distinct keys each entry is found.
  pub get-entries :
      (m : Map K V) → AreDistinct (keys m) → All (λ entry. get m entry.0 ≡ some entry.1) m
  get-entries [] distinct = tt
  get-entries (entry ∷ rest) distinct = (
    get_head entry rest entry.0 (same_key_refl entry.0),
    behind rest (get-entries rest distinct.1)
        ((contains-eq-false (keys rest) entry.0).0 distinct.0),
  )
    where
      behind :
          (later : Map K V)
          → All (λ e. get rest e.0 ≡ some e.1) later
          → All (λ k. same_key k entry.0 ≡ false) (keys later)
          → All (λ e. get (entry ∷ rest) e.0 ≡ some e.1) later
      behind [] found apart = tt
      behind (e ∷ more) found apart = (
        get_tail entry rest e.0 (same_key_apart e.0 entry.0 apart.0) ∙ found.0,
        behind more found.1 apart.1,
      )

  pub get_cons :
      (entry : K × V) (rest : Map K V) (k : K)
      → is_some (get (entry ∷ rest) k) ≡ (same_key entry.0 k || is_some (get rest k))
  get_cons entry rest k = ground arith

  is_some-insert :
      (k : K) (v : V) (m : Map K V) (j : K)
      → is_some (get (insert k v m) j) ≡ (same_key k j || is_some (get m j))
  is_some-insert k v m j = elim (Bool-cases (same_key k j)) [
    | inl e ↦ rw e (ap is_some (get-insert_hit j k v m e))
    | inr e ↦ rw e (ap is_some (get-insert_other j k v m e))
  ]

  -- A key of an extended map is one of the map or of what extends it.
  pub is_some-extend :
      (m es : Map K V) (k : K)
      → is_some (get (extend m es) k) ≡ (is_some (get m k) || is_some (get es k))
  unfolding extend
  is_some-extend m [] k = or_nothing _
  is_some-extend m (entry ∷ rest) k =
      is_some-extend (insert entry.0 entry.1 m) rest k
      ∙ ap (λ b. b || is_some (get rest k)) (is_some-insert entry.0 entry.1 m k)
      ∙ or_swap (same_key entry.0 k) (is_some (get m k)) (is_some (get rest k))
      ∙ ap (λ b. is_some (get m k) || b) (sym (get_cons entry rest k))
