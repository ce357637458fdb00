-- ===== src/Http.antt =====
-- internal/middleware and internal/errors: what stands between a request and its handler.
pub mod Errors
pub mod Reply
pub mod Writer
pub mod Logging
pub mod Response
pub mod Auth
mod Tests
