-- ===== src/Tests.antt =====
-- Concrete data on which the theorems are applied.
pub mod World
pub mod Push
pub mod Routing
pub mod Serving
pub mod Responses
pub mod Cli
pub mod Settings
pub mod Migrate
pub mod Check
pub mod Dev
pub mod Live
pub mod Db
