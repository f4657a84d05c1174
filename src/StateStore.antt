-- ===== src/StateStore.antt =====
-- internal/statestore: the SQLite state store as tables.
pub mod Db
pub mod Projects
pub mod Settings
pub mod Jobs
pub mod Migrations
mod Tests
