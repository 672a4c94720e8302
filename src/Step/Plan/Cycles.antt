-- ===== src/Step/Plan/Cycles.antt =====
-- What a reported cycle is: nodes that wait for each other.
use reiny.Prelude.{
  ℕ, zero, suc, ◌≡◌, ◌⊎◌, refl, ◌∙◌, true, false, Option, none, some, List, [], ◌∷◌, ◌++◌, Bytes,
  Result, err, keys, remove, set_remove, contains, AreDistinct, All, All-map, inl, inr, bytes_key,
  contains-set_remove_other, set_remove-AreDistinct, All-set_remove,
}
use reiny.Bindings.Module.{is_nil}
use reiny.Step.Types.{StepPlanError}
use reiny.Step.Plan.{
  PlanFailure, refused, Dependencies, find_ready, release, order_round, order_loop,
}
use reiny.Step.Plan.Order.{keys_after, All-remove, All-release}

-- Each of the nodes waits for one of them.
abbrev pub IsBlocked : (Bytes → List Bytes) → List Bytes → Type 0
IsBlocked sources names =
    (is_nil names ≡ false)
    × All (λ name. (s : Bytes) × (contains names s ≡ true) × (contains (sources name) s ≡ true))
        names

-- An entry waits for nodes that are left, which are among its sources.
abbrev pub Bound : (Bytes → List Bytes) → List Bytes → Bytes × List Bytes → Type 0
Bound sources left (name, waiting) =
    AreDistinct waiting
    × All (λ s. (contains left s ≡ true) × (contains (sources name) s ≡ true)) waiting

stuck_by :
    (sources : Bytes → List Bytes) (left : List Bytes) (deps : Dependencies)
    → find_ready deps ≡ none
    → All (Bound sources left) deps
    → All
        (λ name. (s : Bytes) × (contains left s ≡ true) × (contains (sources name) s ≡ true))
        (keys deps)
stuck_by sources left [] stuck bound = tt
stuck_by sources left ((name, []) ∷ rest) stuck bound = cc
stuck_by sources left ((name, s ∷ waiting) ∷ rest) stuck bound =
    ((s, bound.0.1.0.0, bound.0.1.0.1), stuck_by sources left rest stuck bound.1)

release-Bound :
    (sources : Bytes → List Bytes) (next : Bytes) (left : List Bytes) (deps : Dependencies)
    → All (Bound sources left) deps
    → All (Bound sources (set_remove next left)) (release next (remove next deps))
release-Bound sources next left deps all =
    All-release (Bound sources left) (Bound sources (set_remove next left)) next (remove next deps)
      (λ name waiting bound. (
        set_remove-AreDistinct next waiting bound.0,
        All-map _ _ (set_remove next waiting)
            (λ s at_s. (contains-set_remove_other s next left at_s.1 ∙ at_s.0.0, at_s.0.1))
            (All-set_remove _ next waiting bound.0 bound.1),
      ))
      (All-remove (Bound sources left) next deps all)

round-eq-err :
    (loop : Dependencies → List Bytes → Result PlanFailure (List Bytes)) (deps : Dependencies)
    (done : List Bytes) (ready : Option Bytes) {error : StepPlanError}
    → order_round loop deps done ready ≡ err (refused error)
    → ((ready ≡ none) × (error ≡ StepPlanError.same_tick_cycle (keys deps)))
      ⊎ ((next : Bytes) × (ready ≡ some next)
          × (loop (release next (remove next deps)) (done ++ (next ∷ [])) ≡ err (refused error)))
round-eq-err loop deps done none failed = inl (refl, cc)
round-eq-err loop deps done (some next) failed = inr (next, refl, failed)

pub order_loop-IsBlocked :
    (sources : Bytes → List Bytes) (fuel : ℕ) (deps : Dependencies) (done : List Bytes)
    (error : StepPlanError)
    → order_loop fuel deps done ≡ err (refused error)
    → All (Bound sources (keys deps)) deps
    → (names : List Bytes) × (error ≡ StepPlanError.same_tick_cycle names) × IsBlocked sources names
order_loop-IsBlocked sources fuel [] done error failed bound = cc
order_loop-IsBlocked sources zero (entry ∷ more) done error failed bound = cc
order_loop-IsBlocked sources (suc fuel) (entry ∷ more) done error failed bound =
    let deps = entry ∷ more in
    elim (round-eq-err (order_loop fuel) deps done (find_ready deps) failed) [
      | inl stuck ↦ (keys deps, stuck.1, (refl, stuck_by sources (keys deps) deps stuck.0 bound))
      | inr later ↦
          let next = later.0 in
          let after : All (Bound sources (keys (release next (remove next deps))))
              (release next (remove next deps)) =
            rw (keys_after deps next) (release-Bound sources next (keys deps) deps bound) in
          order_loop-IsBlocked sources fuel (release next (remove next deps)) (done ++ (next ∷ []))
            error later.2 after
    ]
