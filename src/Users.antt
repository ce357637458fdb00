-- ===== src/Users.antt =====
-- internal/users: registration, login and tokens.
pub mod Repository
pub mod Service
pub mod Handler
pub mod Replies
pub mod Login
pub mod Register
pub mod Tokens
pub mod Refresh
pub mod Access
mod Tests
