-- ===== src/Step/Scheduler/Reachable.antt =====
-- The schedulers that advancements and interruptions lead to, in any order.
use reiny.Prelude.{
  inr, ℕ, ◌≤◌, arith, ◌≡◌, ◌≢◌, refl, ap, ◌∙◌, Option, none, some, [], Bytes, Result, ok, err, inl,
}
use reiny.Step.Types.{
  StepGraph, StepTick, StepInputs, StepReceipt, StepFailure, StepFailureKind, ClockSnapshot,
  Duration,
}
use reiny.Step.Plan.{Plan, PlanFailure, compile}
use reiny.Step.Plan.Compiled.{IsPlan, compile-IsPlan}
use reiny.Step.Request.{StepRequest, u64_max, checked_add}
use reiny.Step.Execution.{Verdict, Invocation}
use reiny.Step.Clock.{StepScheduler, allocate, new_by, new}
use reiny.Step.Node.{request_error, failed, faulted, Outcome, received, rejected, dropped, unwound}
use reiny.Step.Scheduler.{advance_controlled, interrupted, interrupted_failure}
use reiny.Step.Scheduler.Advance.{IsBooked, IsAdvanced, advance_controlled-IsAdvanced}
use reiny.Step.Scheduler.Total.{IsScheduler, IsExecutor, IsCommit, advance_controlled-IsSound}

-- The books of a faulted scheduler, which keeps a fault.
abbrev pub IsStuck : StepScheduler → StepScheduler → Type 0
IsStuck s t = (failure : StepFailure) × (t ≡ record s { fault = some failure })

-- The clock of the second scheduler is that of the first or a later one, in range where the first
-- is.
abbrev pub Follows : StepScheduler → StepScheduler → Type 0
Follows s t =
    (s.next_index ≤ t.next_index) × (s.time ≤ t.time) × (t.epoch ≡ s.epoch) × (t.plan ≡ s.plan)

abbrev with_fault : StepFailure → StepScheduler → StepScheduler
with_fault failure s = record s { fault = some failure }

module _ {X : Type 0} (control : StepReceipt → ClockSnapshot → Verdict)
    (invoke : X → Bytes → StepTick → StepInputs → Invocation × X) where
  pub data Step (s t : StepScheduler) : Type 0 where
    advanced :
        (world : X) (request : StepRequest)
        → t ≡ (advance_controlled invoke control s world request).1.0
        → Step s t
    stopped : (kind : StepFailureKind) → t ≡ (interrupted s kind).1 → Step s t

  pub data Reach (s : StepScheduler) : StepScheduler → Type 0 where
    here : Reach s s
    next : {t u : StepScheduler} → Reach s t → Step t u → Reach s u

  interrupted-IsScheduler :
      (s : StepScheduler) (kind : StepFailureKind) (fault : Option StepFailure)
      → s.fault ≡ fault
      → IsScheduler s
      → IsScheduler (interrupted s kind).1
  interrupted-IsScheduler s kind none e good = rw e good
  interrupted-IsScheduler s kind (some failure) e good = rw e good

  Step-IsScheduler : (s t : StepScheduler) → Step s t → IsScheduler s → IsScheduler t
  Step-IsScheduler s t (advanced world request e) good =
      rw e (advance_controlled-IsSound control invoke s good world request).1
  Step-IsScheduler s t (stopped kind e) good =
      rw e (interrupted-IsScheduler s kind s.fault refl good)

  -- A good scheduler stays good.
  pub Reach-IsScheduler : {s t : StepScheduler} → Reach s t → IsScheduler s → IsScheduler t
  Reach-IsScheduler here good = good
  Reach-IsScheduler (next {t = t} {u = u} reached step) good =
      Step-IsScheduler t u step (Reach-IsScheduler reached good)

  faulted_by :
      (s : StepScheduler) (world : X) (request : StepRequest) (failure : StepFailure)
      (result : Outcome × (StepScheduler × X))
      → s.fault ≡ some failure
      → IsAdvanced s world request result
      → result.1.0 ≡ s
  faulted_by s world request failure (received receipt, (after, left)) e is = let f = is.0 in cc
  faulted_by s world request failure (rejected (request_error error), (after, left)) e is = is.1.0
  faulted_by s world request failure (rejected (faulted other), (after, left)) e is = is.1.0
  faulted_by s world request failure (rejected (failed other), (after, left)) e is =
      let f = is.0 in cc
  faulted_by s world request failure (dropped, (after, left)) e is = let f = is.0 in cc
  faulted_by s world request failure (unwound, (after, left)) e is = let f = is.0 in cc

  Step-IsStuck :
      (s t : StepScheduler) (failure : StepFailure)
      → s.fault ≡ some failure
      → Step s t
      → IsStuck s t
  Step-IsStuck s t failure e (advanced world request same) = (
    failure,
    same
        ∙ faulted_by s world request failure (advance_controlled invoke control s world request) e
            (advance_controlled-IsAdvanced control invoke s world request)
        ∙ ap (λ f. record s { fault = f }) e,
  )
  Step-IsStuck s t failure e (stopped kind same) =
      (interrupted_failure kind failure, same ∙ rw e refl)

  -- A fault is for good: whatever advancements and interruptions follow, the scheduler keeps a
  -- fault, and all else of it stays as it was.
  pub Reach-IsStuck :
      {s t : StepScheduler} (failure : StepFailure)
      → s.fault ≡ some failure
      → Reach s t
      → IsStuck s t
  Reach-IsStuck {s = s} failure e here =
      let same : s ≡ record s { fault = some failure } = ap (λ f. record s { fault = f }) e in
      (failure, same)
  Reach-IsStuck {s = s} failure e (next {t = t} {u = u} reached step) =
      let before = Reach-IsStuck failure e reached in
      let now = Step-IsStuck t u before.0 (ap (λ a. a.fault) before.1) step in
      let again : record t { fault = some now.0 } ≡ record s { fault = some now.0 } =
        ap (with_fault now.0) before.1 in
      (now.0, now.1 ∙ again)

  same_clock :
      (s t : StepScheduler) (fault : Option StepFailure)
      → t ≡ record s { fault = fault }
      → Follows s t
  same_clock s t fault e = rw e (omega arith, omega arith, refl, refl)

  IsBooked-Follows :
      (s : StepScheduler) (request : StepRequest) (after : StepScheduler)
      → IsBooked s request after
      → Follows s after
  IsBooked-Follows s request after is = (omega (arith, is.1.0), omega (arith, is.2.0), is.4, is.5)

  IsAdvanced-Follows :
      (s : StepScheduler) (world : X) (request : StepRequest)
      (result : Outcome × (StepScheduler × X))
      → IsAdvanced s world request result
      → Follows s result.1.0
  IsAdvanced-Follows s world request (received receipt, (after, left)) is =
      IsBooked-Follows s request after is.1.1
  IsAdvanced-Follows s world request (rejected (request_error error), (after, left)) is =
      same_clock s after s.fault is.1.0
  IsAdvanced-Follows s world request (rejected (faulted other), (after, left)) is =
      same_clock s after s.fault is.1.0
  IsAdvanced-Follows s world request (rejected (failed other), (after, left)) is =
      same_clock s after (some other) is.1
  IsAdvanced-Follows s world request (dropped, (after, left)) is =
      same_clock s after (some is.1.0) is.1.1.0
  IsAdvanced-Follows s world request (unwound, (after, left)) is = elim is.1 [
    | inl same ↦ same_clock s after after.fault same
    | inr books ↦ IsBooked-Follows s request after books
  ]

  interrupted_by :
      (s : StepScheduler) (kind : StepFailureKind) (fault : Option StepFailure)
      → s.fault ≡ fault
      → Follows s (interrupted s kind).1
  interrupted_by s kind none e = rw e (omega arith, omega arith, refl, refl)
  interrupted_by s kind (some failure) e = rw e (omega arith, omega arith, refl, refl)

  Step-Follows : (s t : StepScheduler) → Step s t → Follows s t
  Step-Follows s t (advanced world request same) = rw same (
      IsAdvanced-Follows s world request (advance_controlled invoke control s world request)
        (advance_controlled-IsAdvanced control invoke s world request))
  Step-Follows s t (stopped kind same) = rw same (interrupted_by s kind s.fault refl)

  -- No sequence of advancements and interruptions sets the index or the time of a scheduler back, or
  -- changes its epoch or its plan.
  pub Reach-Follows : {s t : StepScheduler} → Reach s t → Follows s t
  Reach-Follows here = (omega arith, omega arith, refl, refl)
  Reach-Follows (next {t = t} {u = u} reached step) =
      let before = Reach-Follows reached in
      let now = Step-Follows t u step in
      (
        omega (arith, before.0, now.0),
        omega (arith, before.1, now.1),
        now.2 ∙ before.2,
        now.3 ∙ before.3,
      )

allocated :
    (plan : Plan) (time : Duration) (counter counter' : ℕ) (epoch : Option ℕ) (s : StepScheduler)
    → IsPlan plan
    → allocate plan time counter epoch ≡ (ok s, counter')
    → IsScheduler s
allocated plan time counter counter' none s good e = let failed_at = ap (λ r. r.0) e in cc
allocated plan time counter counter' (some following) s good e =
    let made = ap (λ r. r.0) e in
    let same : s ≡ record {
      plan = plan;
      epoch = counter;
      next_index = 0;
      time = time;
      previous = [];
      fault = none;
    } =
      cc in
    rw same (good, inl refl)

new_by-IsScheduler :
    (graph : StepGraph) (compiled : Result PlanFailure Plan) (time : Duration)
    (counter counter' : ℕ) (s : StepScheduler)
    → compile graph ≡ compiled
    → new_by compiled time counter ≡ (ok s, counter')
    → IsScheduler s
new_by-IsScheduler graph (err failure) time counter counter' s e made =
    let failed_at = ap (λ r. r.0) made in cc
new_by-IsScheduler graph (ok plan) time counter counter' s e made =
    allocated plan time counter counter' (checked_add u64_max counter 1) s
      (compile-IsPlan graph plan e).1 made

pub new-IsScheduler :
    (graph : StepGraph) (time : Duration) (counter counter' : ℕ) (s : StepScheduler)
    → new graph time counter ≡ (ok s, counter')
    → IsScheduler s
unfolding new
new-IsScheduler graph time counter counter' s made =
    new_by-IsScheduler graph (compile graph) time counter counter' s refl made

-- A scheduler that `new` built from a graph, whatever advancements and interruptions it has been
-- through, with executors and commits that may have panicked, does not unwind in an advancement with
-- an executor none of whose futures, dropped while pending, and caught panics panics when it is
-- dropped, and a commit that does not panic: every map that is indexed has the key.
pub reached-ne-unwound :
    {X : Type 0} (control last : StepReceipt → ClockSnapshot → Verdict)
    (invoke calm : X → Bytes → StepTick → StepInputs → Invocation × X) (graph : StepGraph)
    (time : Duration) (counter counter' : ℕ) (s t : StepScheduler) (world : X)
    (request : StepRequest)
    → new graph time counter ≡ (ok s, counter')
    → Reach control invoke s t
    → IsExecutor calm
    → IsCommit last
    → (advance_controlled calm last t world request).0 ≢ unwound
reached-ne-unwound control last invoke calm graph time counter counter' s t world request made
      reached drops_well returns =
    let good = new-IsScheduler graph time counter counter' s made in
    (advance_controlled-IsSound last calm t (Reach-IsScheduler control invoke reached good) world
        request).0
      (drops_well, returns)
