-- ===== src/Orders.antt =====
-- internal/orders: placing, changing and canceling orders.
pub mod Repository
pub mod Contract
pub mod Service
pub mod Handler
pub mod Response
pub mod Replies
pub mod Inventory
pub mod Conservation
pub mod Effects
pub mod Redemptions
pub mod Books
pub mod Race
mod Tests
