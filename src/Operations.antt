-- ===== src/Operations.antt =====
-- internal/operations: the log of what users did, for rate limiting.
pub mod Repository
pub mod Contract
pub mod Window
mod Tests
