-- ===== src/Store.antt =====
-- internal/store: what the route groups share.
pub mod TimeRange
pub mod Base64
pub mod Decimal
pub mod Cursor
pub mod Paging
pub mod Query
pub mod DbErr
mod Tests
