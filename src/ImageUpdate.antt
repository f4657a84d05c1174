-- ===== src/ImageUpdate.antt =====
-- internal/imageupdate: what the poller makes of a registry's tags.
pub mod Semver
pub mod Poller
pub mod Ref
pub mod Auth
pub mod Links
pub mod Client
mod Tests
