-- ===== src/Step/Plan/Order.antt =====
-- The order of execution that the last loop of `validate_routes` finds.
use reiny.Prelude.{
  ℕ, zero, suc, ◌≤◌, ◌≡◌, ◌≢◌, refl, sym, ap, ◌∙◌, arith, true, ◌||◌, Option, none, some, List, [],
  ◌∷◌, ◌++◌, append_assoc, append-nil, Bytes, Result, ok, err, length, keys, remove, set_remove,
  contains, contains_cong, same_key, same_key_refl, AreDistinct, All, All-map, or_true, Bool-cases,
  inl, inr, bytes_key, contains-append, contains-set_remove_other, contains-set_remove_same,
  keys-remove, set_remove-AreDistinct, length-set_remove,
}
use reiny.Step.Plan.{
  PlanFailure, out_of_fuel, Dependencies, find_ready, release, order_round, order_loop,
}

-- Each node comes behind the nodes that `sources` gives for it.
abbrev pub AreReady : (Bytes → List Bytes) → List Bytes → List Bytes → Type 0
AreReady sources done [] = Unit {0}
AreReady sources done (next ∷ rest) =
    All (λ s. contains done s ≡ true) (sources next) × AreReady sources (done ++ (next ∷ [])) rest

keys-release : (next : Bytes) (deps : Dependencies) → keys (release next deps) ≡ keys deps
keys-release next [] = refl
keys-release next (entry ∷ rest) = ap (◌∷◌ entry.0) (keys-release next rest)

length-keys : (deps : Dependencies) → length (keys deps) ≡ length deps
length-keys [] = refl
length-keys (entry ∷ rest) = ap suc (length-keys rest)

-- The node found is one of the entries, and waits for nothing.
pub ready_by :
    (P : Bytes × List Bytes → Type 0) (deps : Dependencies) (next : Bytes)
    → find_ready deps ≡ some next
    → All P deps
    → (contains (keys deps) next ≡ true) × P (next, [])
ready_by P [] next found all = cc
ready_by P ((name, []) ∷ rest) next found all =
    let same : name ≡ next = cc in
    let held : (same_key name next || contains (keys rest) next) ≡ true =
      rw (sym same, same_key_refl name) refl in
    (held, rw (sym same) all.0)
ready_by P ((name, source ∷ more) ∷ rest) next found all =
    let later = ready_by P rest next found all.1 in (or_true (same_key name next) later.0, later.1)

pub keys_after :
    (deps : Dependencies) (next : Bytes)
    → keys (release next (remove next deps)) ≡ set_remove next (keys deps)
keys_after deps next = keys-release next (remove next deps) ∙ keys-remove next deps

length_after :
    (deps : Dependencies) (next : Bytes)
    → contains (keys deps) next ≡ true
    → suc (length (release next (remove next deps))) ≡ length deps
length_after deps next held =
    let after = length-keys (release next (remove next deps)) in
    let before = length-keys deps in
    let one = length-set_remove next (keys deps) held in
    let same = ap length (keys_after deps next) in omega (arith, after, before, one, same)

trivially : (deps : Dependencies) → All (λ e. Unit {0}) deps
trivially [] = tt
trivially (entry ∷ rest) = (tt, trivially rest)

module _ (loop : Dependencies → List Bytes → Result PlanFailure (List Bytes)) (deps : Dependencies)
    (done : List Bytes) where
  -- A round that goes on found a node.
  round-eq-ok :
      (ready : Option Bytes) {order : List Bytes}
      → order_round loop deps done ready ≡ ok order
      → (next : Bytes) × (ready ≡ some next)
        × (loop (release next (remove next deps)) (done ++ (next ∷ [])) ≡ ok order)
  round-eq-ok none stopped = cc
  round-eq-ok (some next) ran = (next, refl, ran)

  round-ne-out_of_fuel :
      (ready : Option Bytes)
      → ((next : Bytes)
          → ready ≡ some next
          → loop (release next (remove next deps)) (done ++ (next ∷ [])) ≢ err out_of_fuel)
      → order_round loop deps done ready ≢ err out_of_fuel
  round-ne-out_of_fuel none later = λ h. cc
  round-ne-out_of_fuel (some next) later = later next refl

-- Enough fuel for the loop is a round for each entry.
pub order_loop-ne-out_of_fuel :
    (fuel : ℕ) (deps : Dependencies) (done : List Bytes)
    → length deps ≤ fuel
    → order_loop fuel deps done ≢ err out_of_fuel
order_loop-ne-out_of_fuel fuel [] done enough = λ h. cc
order_loop-ne-out_of_fuel zero (entry ∷ rest) done enough = absurd (omega arith)
order_loop-ne-out_of_fuel (suc fuel) (entry ∷ rest) done enough =
    round-ne-out_of_fuel (order_loop fuel) (entry ∷ rest) done (find_ready (entry ∷ rest))
      (λ next found.
        let held = ready_by (λ e. Unit {0}) (entry ∷ rest) next found (trivially (entry ∷ rest)) in
        let shorter = length_after (entry ∷ rest) next held.0 in
        order_loop-ne-out_of_fuel fuel (release next (remove next (entry ∷ rest)))
          (done ++ (next ∷ [])) (omega (arith, shorter, enough)))

-- What is still waited for is an entry's source or done.
abbrev pub Waits : (Bytes → List Bytes) → List Bytes → Bytes × List Bytes → Type 0
Waits sources done (name, waiting) =
    All (λ s. (contains waiting s || contains done s) ≡ true) (sources name)

pub All-remove :
    (P : Bytes × List Bytes → Type 0) (next : Bytes) (deps : Dependencies)
    → All P deps
    → All P (remove next deps)
unfolding remove
All-remove P next [] all = tt
All-remove P next (entry ∷ rest) all = elim (Bool-cases (same_key entry.0 next)) [
  | inl e ↦ rw e all.1
  | inr e ↦ rw e (all.0, All-remove P next rest all.1)
]

pub All-release :
    (P Q : Bytes × List Bytes → Type 0) (next : Bytes) (deps : Dependencies)
    → ((name : Bytes) (waiting : List Bytes)
        → P (name, waiting)
        → Q (name, set_remove next waiting))
    → All P deps
    → All Q (release next deps)
All-release P Q next [] by all = tt
All-release P Q next ((name, waiting) ∷ rest) by all =
    (by name waiting all.0, All-release P Q next rest by all.1)

still :
    (next s : Bytes) (waiting done : List Bytes)
    → (contains waiting s || contains done s) ≡ true
    → (contains (set_remove next waiting) s || contains (done ++ (next ∷ [])) s) ≡ true
still next s waiting done h =
    ground (arith, contains-append done (next ∷ []) s, contains-set_remove_other s next waiting)

-- The entries that are left wait for what they did, less the node that is done.
release-Waits :
    (sources : Bytes → List Bytes) (done : List Bytes) (next : Bytes) (deps : Dependencies)
    → All (Waits sources done) deps
    → All (Waits sources (done ++ (next ∷ []))) (release next (remove next deps))
release-Waits sources done next deps all =
    All-release (Waits sources done) (Waits sources (done ++ (next ∷ []))) next (remove next deps)
      (λ name waiting waits. All-map _ _ (sources name) (λ s. still next s waiting done) waits)
      (All-remove (Waits sources done) next deps all)

-- The order adds the nodes left, each once and behind those that it waits for.
abbrev pub IsOrderOf : (Bytes → List Bytes) → List Bytes → Dependencies → List Bytes → Type 0
IsOrderOf sources done deps order =
    (rest : List Bytes) × (order ≡ done ++ rest)
    × AreReady sources done rest
    × AreDistinct rest
    × ((k : Bytes) → contains rest k ≡ contains (keys deps) k)

held_by :
    (next k : Bytes) (xs rest : List Bytes)
    → contains xs next ≡ true
    → contains rest k ≡ contains (set_remove next xs) k
    → (same_key next k || contains rest k) ≡ contains xs k
held_by next k xs rest held same = elim (Bool-cases (same_key next k)) [
  | inl e ↦
      let at_k : contains xs k ≡ true = sym (contains_cong k next xs e) ∙ held in rw e (sym at_k)
  | inr e ↦ rw e (same ∙ contains-set_remove_other k next xs e)
]

-- One node more in front.
order_step :
    (sources : Bytes → List Bytes) (deps : Dependencies) (done order : List Bytes) (next : Bytes)
    → (contains (keys deps) next ≡ true) × Waits sources done (next, [])
    → AreDistinct (keys deps)
    → IsOrderOf sources (done ++ (next ∷ [])) (release next (remove next deps)) order
    → IsOrderOf sources done deps order
order_step sources deps done order next held distinct later =
    let named = keys_after deps next in
    let same : (k : Bytes) → contains later.0 k ≡ contains (set_remove next (keys deps)) k =
      λ k. later.4 k ∙ ap (λ xs. contains xs k) named in
    (
      next ∷ later.0,
      later.1 ∙ append_assoc done (next ∷ []) later.0,
      (held.1, later.2),
      (same next ∙ contains-set_remove_same next (keys deps) distinct, later.3),
      λ k. held_by next k (keys deps) later.0 held.0 (same k),
    )

pub order_loop-IsOrderOf :
    (sources : Bytes → List Bytes) (fuel : ℕ) (deps : Dependencies) (done order : List Bytes)
    → order_loop fuel deps done ≡ ok order
    → All (Waits sources done) deps
    → AreDistinct (keys deps)
    → IsOrderOf sources done deps order
order_loop-IsOrderOf sources fuel [] done order found waits distinct =
    let same : order ≡ done = cc in ([], same ∙ sym (append-nil done), tt, tt, λ k. refl)
order_loop-IsOrderOf sources zero (entry ∷ more) done order found waits distinct = cc
order_loop-IsOrderOf sources (suc fuel) (entry ∷ more) done order found waits distinct =
    let deps = entry ∷ more in
    let round = round-eq-ok (order_loop fuel) deps done (find_ready deps) found in
    let next = round.0 in
    let apart : AreDistinct (keys (release next (remove next deps))) =
      rw (keys_after deps next) (set_remove-AreDistinct next (keys deps) distinct) in
    order_step sources deps done order next (ready_by (Waits sources done) deps next round.1 waits)
      distinct
      (order_loop-IsOrderOf sources fuel (release next (remove next deps)) (done ++ (next ∷ []))
        order round.2 (release-Waits sources done next deps waits) apart)
