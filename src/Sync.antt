-- ===== src/Sync.antt =====
-- internal/sync: pushes from clients, pulls of changes, and the retention of the change log.
pub mod Changelog
pub mod Prune
pub mod Feed
pub mod History
pub mod Push
pub mod Pull
mod Tests
