-- ===== src/Job/State/Revisions.antt =====
-- The revisions of a job, in any order of progress, cancellation and completion.
use reiny.Prelude.{
  ℕ, suc, ◌+◌, ◌-◌, ◌≤◌, arith, ◌≡◌, ◌⊎◌, inl, inr, refl, Bool, true, false, Option, none, some,
}
use reiny.Step.Request.{u64_max, checked_add}
use reiny.Step.Request.Accepted.{checked_by}
use reiny.Job.Types.{
  JobOutcome, succeeded, failed, cancelled, panicked, interrupted, JobStatus, running, cancelling,
  complete, JobSnapshot,
}
use reiny.Job.State.{
  saturating_add, next_revision, started, cancel_at, request_cancel, report_at, progress_at,
  progress, terminate, complete_at, complete_once,
}

-- Every operation on a snapshot is a sequence of these.
pub data Step {P T E : Type 0} (s t : JobSnapshot P T E) : Type 0 where
  cancels : t ≡ (request_cancel s).1 → Step s t
  reports : (value : P) → t ≡ (progress s value).1 → Step s t
  completes : (outcome : JobOutcome T E) → t ≡ (complete_once s outcome).0 → Step s t

pub data Reach {P T E : Type 0} (s : JobSnapshot P T E) : JobSnapshot P T E → Type 0 where
  here : Reach s s
  next : {t u : JobSnapshot P T E} → Reach s t → Step t u → Reach s u

-- A running job has room for two more revisions, a cancelled one for one.
abbrev pub HasRoom : {T E : Type 0} → ℕ → JobStatus T E → Type 0
HasRoom revision running = revision + 2 ≤ u64_max
HasRoom revision cancelling = revision + 1 ≤ u64_max
HasRoom revision (complete outcome) = revision ≤ u64_max

abbrev pub is_complete : {T E : Type 0} → JobStatus T E → Bool
is_complete running = false
is_complete cancelling = false
is_complete (complete outcome) = true

-- The snapshot stays as it was, or it was not terminal and the next revision is its.
abbrev pub IsNext : {P T E : Type 0} → JobSnapshot P T E → JobSnapshot P T E → Type 0
IsNext s t =
    (t ≡ s)
    ⊎ ((is_complete s.status ≡ false) × (t.revision ≡ suc s.revision) × (t.revision ≤ u64_max))

saturating_suc : (n : ℕ) → n + 1 ≤ u64_max → saturating_add n 1 ≡ suc n
saturating_suc n fits = ground arith

reserved_by :
    (found : Option ℕ) (reserved : ℕ)
    → next_revision found ≡ some reserved
    → (found ≡ some reserved) × (reserved ≤ u64_max - 2)
reserved_by none reserved e = cc
reserved_by (some number) reserved e = ground arith

module _ {P T E : Type 0} where
  abbrev Kept : JobSnapshot P T E → JobSnapshot P T E → Type 0
  Kept s t = HasRoom t.revision t.status × IsNext s t

  kept_by : (s t : JobSnapshot P T E) → t ≡ s → HasRoom s.revision s.status → Kept s t
  kept_by s t e room = rw e (room, inl refl)

  cancel_by :
      (s : JobSnapshot P T E) (status : JobStatus T E)
      → s.status ≡ status
      → HasRoom s.revision status
      → Kept s (cancel_at s status).1
  cancel_by s running e room =
      let suc_of = saturating_suc s.revision (omega (arith, room)) in
      (rw suc_of (omega (arith, room)), inr (rw e refl, suc_of, omega (arith, suc_of, room)))
  cancel_by s cancelling e room = (rw e room, inl refl)
  cancel_by s (complete outcome) e room = (rw e room, inl refl)

  terminate_by :
      (s : JobSnapshot P T E) (outcome : JobOutcome T E)
      → is_complete s.status ≡ false
      → s.revision + 1 ≤ u64_max
      → Kept s (terminate s outcome)
  terminate_by s outcome going room =
      let suc_of = saturating_suc s.revision room in
      (omega (arith, suc_of, room), inr (going, suc_of, omega (arith, suc_of, room)))

  complete_by :
      (s : JobSnapshot P T E) (outcome : JobOutcome T E) (status : JobStatus T E)
      → s.status ≡ status
      → HasRoom s.revision status
      → Kept s (complete_at s outcome status).0
  complete_by s outcome running e room = terminate_by s outcome (rw e refl) (omega (arith, room))
  complete_by s (succeeded value) cancelling e room = (rw e room, inl refl)
  complete_by s (failed error) cancelling e room = terminate_by s _ (rw e refl) room
  complete_by s cancelled cancelling e room = terminate_by s _ (rw e refl) room
  complete_by s panicked cancelling e room = terminate_by s _ (rw e refl) room
  complete_by s interrupted cancelling e room = terminate_by s _ (rw e refl) room
  complete_by s outcome (complete before) e room = (rw e room, inl refl)

  report_by :
      (s : JobSnapshot P T E) (value : P) (reserved : Option ℕ)
      → s.status ≡ running
      → HasRoom s.revision s.status
      → next_revision (checked_add u64_max s.revision 1) ≡ reserved
      → Kept s (report_at s value reserved).1
  report_by s value none e room taken = (room, inl refl)
  report_by s value (some number) e room taken =
      let found = reserved_by (checked_add u64_max s.revision 1) number taken in
      let added = checked_by u64_max s.revision 1 number found.0 in
      (
        rw e (omega (arith, found.1)),
        inr (rw e refl, omega (arith, added.0), omega (arith, added.1)),
      )

  progress_by :
      (s : JobSnapshot P T E) (value : P) (status : JobStatus T E)
      → s.status ≡ status
      → HasRoom s.revision s.status
      → Kept s (progress_at s value status).1
  progress_by s value running e room = report_by s value _ e room refl
  progress_by s value cancelling e room = (room, inl refl)
  progress_by s value (complete outcome) e room = (room, inl refl)

  step_by : (s t : JobSnapshot P T E) → Step s t → HasRoom s.revision s.status → Kept s t
  unfolding request_cancel progress complete_once
  step_by s t (cancels e) room = rw e (cancel_by s s.status refl room)
  step_by s t (reports value e) room = rw e (progress_by s value s.status refl room)
  step_by s t (completes outcome e) room = rw e (complete_by s outcome s.status refl room)

  Reach-HasRoom :
      (id : ℕ) (t : JobSnapshot P T E) → Reach (started id) t → HasRoom t.revision t.status
  Reach-HasRoom id t here = omega arith
  Reach-HasRoom id t (next {t = before} reached step) =
      (step_by before t step (Reach-HasRoom id before reached)).0

  -- On a job that was started and led on by any operations in any order, an operation of progress,
  -- cancellation or completion leaves the snapshot as it was, or finds it not terminal and raises
  -- its revision by exactly one, within `u64`.
  pub Step-IsNext :
      (id : ℕ) (s t : JobSnapshot P T E) → Reach (started id) s → Step s t → IsNext s t
  Step-IsNext id s t reached step = (step_by s t step (Reach-HasRoom id s reached)).1
