-- ===== src/Check.antt =====
-- crates/pg_web_cli/src/check.rs.
pub mod Splitter
pub mod Buffers
pub mod Quotes
pub mod Pieces
pub mod Passes
pub mod Clean
pub mod Whole
