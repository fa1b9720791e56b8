-- ===== src/Push.antt =====
-- crates/pg_web_cli/src/push.rs, from the database's tables to the transaction and its retries.
pub mod Database
pub mod Entries
pub mod Reconcile
pub mod Assets
pub mod Transaction
pub mod Gate
pub mod Run
pub mod View
pub mod Effects
pub mod Cleaning
pub mod Refines
pub mod Atomic
pub mod Safe
pub mod Outcomes
pub mod Lookups
pub mod Served
pub mod Live
