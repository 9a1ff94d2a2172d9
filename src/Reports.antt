-- ===== src/Reports.antt =====
-- internal/reports: derived totals over activity events.
pub mod Window
pub mod Trim
pub mod Bucket
pub mod Grouping
pub mod Totals
pub mod Service
mod Tests
