-- ===== src/Tests.antt =====
-- Runs of the model on concrete inputs, and the theorems of the other modules at such inputs.
mod Samples
mod WireRuns
mod Modules
mod BindingsRuns
mod Graphs
mod StepRuns
mod JobRuns
mod Links
mod LinkRuns
