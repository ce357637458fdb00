-- ===== src/Orders/Effects.antt =====
-- What the operations of orders/service_impl.go do to the table of orders, and what they require.
pub mod Frames
pub mod Create
pub mod Change
pub mod Once
pub mod Active
pub mod Cap
