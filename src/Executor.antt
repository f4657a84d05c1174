-- ===== src/Executor.antt =====
-- internal/executor: Renovate runs as Docker containers.
pub mod State
pub mod Env
pub mod Dispatch
pub mod Exit
pub mod Streams
pub mod Orphans
pub mod Discoveries
mod Tests
