-- ===== src/Wire.antt =====
-- crates/reiny-link/src/wire.rs: the frame format and the Hello table.
pub mod Types
pub mod Codec
pub mod Hash
pub mod Frame
pub mod Text
pub mod Writer
pub mod Reader
pub mod Table
pub mod EntryReader
pub mod EntryWriter
pub mod HelloWriter
pub mod HelloParser
