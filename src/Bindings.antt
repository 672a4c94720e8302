-- ===== src/Bindings.antt =====
-- The named-port contracts of crates/reiny-core/src/bindings.rs, from the names they admit to the
-- graph of compiled reports in bindings/report.rs.
pub mod Types
pub mod ReportTypes
pub mod Names
pub mod Contract
pub mod Module
pub mod Report
pub mod Graph
