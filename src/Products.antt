-- ===== src/Products.antt =====
-- internal/products: the catalogue.
pub mod Repository
pub mod Contract
pub mod Listing
pub mod Order
pub mod Pages
pub mod Service
pub mod Handler
pub mod Response
pub mod Catalogue
pub mod Access
mod Tests
