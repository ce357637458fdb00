-- ===== src/Promos.antt =====
-- internal/promos: promo codes.
pub mod Repository
pub mod Contract
pub mod Service
pub mod Handler
pub mod Response
pub mod Valid
pub mod Changes
pub mod Access
mod Tests
