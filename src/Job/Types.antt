-- ===== src/Job/Types.antt =====
-- The data of crates/reiny/src/job/types.rs.
use reiny.Prelude.{ℕ, Bool, Option}

pub data JobOutcome (T E : Type 0) : Type 0 where
  succeeded : T → JobOutcome T E
  failed : E → JobOutcome T E
  cancelled panicked interrupted : JobOutcome T E

pub data JobStatus (T E : Type 0) : Type 0 where
  running cancelling : JobStatus T E
  complete : JobOutcome T E → JobStatus T E

pub record JobSnapshot (P T E : Type 0) : Type 0 where
  pub id : ℕ
  pub revision : ℕ
  pub progress : Option P
  pub cancellation_requested : Bool
  pub status : JobStatus T E

pub data CancelRequest : Type 0 where
  requested already_requested finished : CancelRequest
