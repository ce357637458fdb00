-- ===== src/Server.antt =====
-- cmd/server/main.go and internal/config/config.go.
pub mod Retry
pub mod Url
pub mod Config
pub mod Start
pub mod Router
pub mod History
mod Tests
