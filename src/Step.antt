-- ===== src/Step.antt =====
-- The step scheduler of crates/reiny/src/step: values and schemas, the compilation of a graph into a
-- plan, and the execution of ticks.
pub mod Values
pub mod Types
pub mod Plan
pub mod Request
pub mod Execution
pub mod Clock
pub mod Node
pub mod Scheduler
