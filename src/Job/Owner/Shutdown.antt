-- ===== src/Job/Owner/Shutdown.antt =====
-- What a shutdown leaves and reports.
use reiny.Prelude.{
  ◌∙◌, zero, suc, ◌+◌, ◌<◌, sym, arith, ◌++◌, append-nil, append_assoc, length, length-append, drop,
  take-append_length, drop-append_add, drop-append_length, ℕ, ◌≡◌, refl, ap, Bool, true, false,
  List, [], ◌∷◌, All, map, ok, if◌then◌else◌,
}
use reiny.Job.Types.{JobStatus, running, cancelling, complete, JobSnapshot}
use reiny.Job.State.{cancel_at, request_cancel}
use reiny.Job.Owner.{
  remove_at, add_late, add_broken, Worker, JobOwner, ShutdownReport, Joined, returned, broken, late,
  cancel_worker, join_worker, join_all, shutdown,
}

abbrev pub is_running : {T E : Type 0} → JobStatus T E → Bool
is_running running = true
is_running cancelling = false
is_running (complete outcome) = false

abbrev pub is_late : Joined → Bool
is_late late = true
is_late broken = false
is_late returned = false

abbrev pub is_broken : Joined → Bool
is_broken late = false
is_broken broken = true
is_broken returned = false

-- The members that the test holds of.
abbrev pub those : (ℕ → Bool) → List ℕ → List ℕ
those test [] = []
those test (id ∷ rest) = if test id then id ∷ those test rest else those test rest

module _ {P T E : Type 0} where
  abbrev pub ids : List (Worker P T E) → List ℕ
  ids [] = []
  ids (worker ∷ rest) = worker.id ∷ ids rest

  -- The workers that are late are kept and reported, those that broke are reported, in their order.
  abbrev pub IsJoined : (ℕ → Joined) → List ℕ → List (Worker P T E) × ShutdownReport → Type 0
  IsJoined joined all (kept, report) =
      (ids kept ≡ those (λ id. is_late (joined id)) all)
      × (report.unresponsive ≡ ids kept)
      × (report.join_failures ≡ those (λ id. is_broken (joined id)) all)
      × All (λ w. is_running w.control.status ≡ false) kept

  stopped_by :
      (s : JobSnapshot P T E) (status : JobStatus T E)
      → s.status ≡ status
      → is_running (cancel_at s status).1.status ≡ false
  stopped_by s running e = refl
  stopped_by s cancelling e = rw e refl
  stopped_by s (complete outcome) e = rw e refl

  cancelled-stopped : (s : JobSnapshot P T E) → is_running (request_cancel s).1.status ≡ false
  unfolding request_cancel
  cancelled-stopped s = stopped_by s s.status refl

  -- What the rounds make of the workers that are left.
  abbrev tail_kept : (ℕ → Joined) → List (Worker P T E) → List (Worker P T E)
  tail_kept joined [] = []
  tail_kept joined (w ∷ rest) =
      if is_late (joined w.id) then w ∷ tail_kept joined rest else tail_kept joined rest

  abbrev whole_report : (ℕ → Joined) → List (Worker P T E) → ShutdownReport → ShutdownReport
  whole_report joined rest report = record {
    unresponsive = report.unresponsive ++ those (λ id. is_late (joined id)) (ids rest);
    join_failures = report.join_failures ++ those (λ id. is_broken (joined id)) (ids rest);
  }

  abbrev Looped :
      (ℕ → Joined) → List (Worker P T E) → List (Worker P T E) → ShutdownReport → ℕ → Type 0
  Looped joined front rest report fuel =
      join_all joined fuel (length front) (front ++ rest) report
      ≡ ok (front ++ tail_kept joined rest, whole_report joined rest report)

  removed :
      (front : List (Worker P T E)) (worker : Worker P T E) (rest : List (Worker P T E))
      → remove_at (length front) (front ++ (worker ∷ rest)) ≡ front ++ rest
  removed front worker rest =
      rw
        (
          take-append_length front (worker ∷ rest) (length front) refl,
          drop-append_add front (worker ∷ rest) 1,
        )
        refl

  round_by :
      (joined : ℕ → Joined) (front : List (Worker P T E)) (worker : Worker P T E)
      (rest : List (Worker P T E)) (report : ShutdownReport) (fuel : ℕ) (end : Joined)
      → joined worker.id ≡ end
      → ((before : List (Worker P T E)) (so_far : ShutdownReport)
          → Looped joined before rest so_far fuel)
      → join_worker
          (join_all joined fuel)
          (length front)
          (front ++ (worker ∷ rest))
          report
          worker
          end
        ≡ ok (front ++ tail_kept joined (worker ∷ rest), whole_report joined (worker ∷ rest) report)
  round_by joined front worker rest report fuel returned e later =
      rw (e, removed front worker rest) (later front report)
  round_by joined front worker rest report fuel broken e later =
      rw (e, removed front worker rest)
        (later front (add_broken report worker) ∙ (λ i. ok (
          front ++ tail_kept joined rest,
          record {
            unresponsive = report.unresponsive ++ those (λ id. is_late (joined id)) (ids rest);
            join_failures =
                append_assoc report.join_failures (worker.id ∷ [])
                  (those (λ id. is_broken (joined id)) (ids rest)) i;
          },
        )))
  round_by joined front worker rest report fuel late e later =
      rw (e, sym (append_assoc front (worker ∷ []) rest), sym (length-append front (worker ∷ [])))
        (later (front ++ (worker ∷ [])) (add_late report worker) ∙ (λ i. ok (
          append_assoc front (worker ∷ []) (tail_kept joined rest) i,
          record {
            unresponsive =
                append_assoc report.unresponsive (worker.id ∷ [])
                  (those (λ id. is_late (joined id)) (ids rest)) i;
            join_failures = report.join_failures ++ those (λ id. is_broken (joined id)) (ids rest);
          },
        )))

  loop_by :
      (joined : ℕ → Joined) (front rest : List (Worker P T E)) (report : ShutdownReport) (fuel : ℕ)
      → length rest < fuel
      → Looped joined front rest report fuel
  loop_by joined front rest report zero enough = absurd (omega (arith, enough))
  loop_by joined front [] report (suc fuel) enough =
      let here : drop (length front) (front ++ []) ≡ [] =
        drop-append_length front [] (length front) refl in
      rw here (λ i. ok (
        front ++ [],
        record {
          unresponsive = sym (append-nil report.unresponsive) i;
          join_failures = sym (append-nil report.join_failures) i;
        },
      ))
  loop_by joined front (worker ∷ rest) report (suc fuel) enough =
      let here : drop (length front) (front ++ (worker ∷ rest)) ≡ worker ∷ rest =
        drop-append_length front (worker ∷ rest) (length front) refl in
      rw here (
        round_by joined front worker rest report fuel (joined worker.id) refl
          (λ before so_far. loop_by joined before rest so_far fuel (omega (arith, enough))))

  ids-map : (workers : List (Worker P T E)) → ids (map cancel_worker workers) ≡ ids workers
  ids-map [] = refl
  ids-map (worker ∷ rest) = ap (λ t. worker.id ∷ t) (ids-map rest)

  abbrev Kept : (ℕ → Joined) → List (Worker P T E) → Type 0
  Kept joined workers =
      (ids (tail_kept joined (map cancel_worker workers))
        ≡ those (λ id. is_late (joined id)) (ids workers))
      × All (λ w. is_running w.control.status ≡ false)
          (tail_kept joined (map cancel_worker workers))

  kept_by :
      (joined : ℕ → Joined) (worker : Worker P T E) (rest : List (Worker P T E)) (end : Joined)
      → joined worker.id ≡ end
      → Kept joined rest
      → Kept joined (worker ∷ rest)
  kept_by joined worker rest returned e later = rw e later
  kept_by joined worker rest broken e later = rw e later
  kept_by joined worker rest late e later =
      rw e (ap (λ t. worker.id ∷ t) later.0, (cancelled-stopped worker.control, later.1))

  all_kept : (joined : ℕ → Joined) (workers : List (Worker P T E)) → Kept joined workers
  all_kept joined [] = (refl, tt)
  all_kept joined (worker ∷ rest) =
      kept_by joined worker rest (joined worker.id) refl (all_kept joined rest)

  -- A shutdown whose deadline can be represented closes the owner and reports: the workers that are
  -- late are the ones that it keeps and reports as unresponsive, none of them running without a
  -- request for cancellation, and those that broke are the join failures, both in start order.
  pub shutdown-IsJoined :
      (joined : ℕ → Joined) (owner : JobOwner P T E)
      → let end = shutdown true joined owner in
        (report : ShutdownReport) × (end.0 ≡ ok report)
        × (end.1.closed ≡ true)
        × IsJoined joined (ids owner.workers) (end.1.workers, report)
  shutdown-IsJoined joined owner =
      let stopped = map cancel_worker owner.workers in
      let empty : ShutdownReport = record { unresponsive = []; join_failures = [] } in
      let ran = loop_by joined [] stopped empty (length stopped + 1) (omega arith) in
      let same = ids-map owner.workers in
      let kept = all_kept joined owner.workers in
      let late_ids = ap (those (λ id. is_late (joined id))) same in
      let broken_ids = ap (those (λ id. is_broken (joined id))) same in
      rw ran (
        whole_report joined stopped empty,
        refl,
        refl,
        (kept.0, late_ids ∙ sym kept.0, broken_ids, kept.1),
      )
