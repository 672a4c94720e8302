-- ===== src/Job.antt =====
-- The jobs of crates/reiny/src/job: what one operation shows, and how it changes.
pub mod Types
pub mod State
pub mod Owner
