-- ===== src/Orders/Inventory.antt =====
-- Where the units of a product are: in stock, or in the orders that are not canceled.
pub mod Stock
pub mod Items
pub mod Statements
use soa_hw.Prelude.{
  ℕ, Bool, true, false, not, Option, none, some, List, [], ◌∷◌, ◌==◌, find, any, All, ◌≡◌, ◌&&◌,
  if◌then◌else◌,
}
use soa_hw.Prelude.Int.{ℤ, pos, ◌+ℤ◌}
use soa_hw.Domain.{Product, Order, OrderItem}
use soa_hw.Domain.Status.{canceled, status_eq}
use soa_hw.Store.{Db}
use soa_hw.Products.Repository as Products
use soa_hw.Orders.Repository as Orders

module _ {F : Type 0} where
  abbrev stock_in : Option (Product F) → ℤ
  stock_in none = pos 0
  stock_in (some p) = p.stock

  -- The stock of a product; 0 if there is no such product.
  unfoldable pub stock_of : ℕ → List (Product F) → ℤ
  stock_of id products = stock_in (find (Products.has_id id) products)

  -- The units of a product in a list of order items.
  unfoldable pub units : ℕ → List (OrderItem F) → ℤ
  units id [] = pos 0
  units id (i ∷ items) = (if i.product_id == id then i.quantity else pos 0) +ℤ units id items

  abbrev pub is_live_order : Option (Order F) → Bool
  is_live_order none = false
  is_live_order (some o) = not (status_eq o.status canceled)

  -- There is an order with this identifier, and it is not canceled.
  unfoldable pub is_live : ℕ → List (Order F) → Bool
  is_live id orders = is_live_order (find (Orders.has_id id) orders)

  -- The units of a product in the items of the orders that are not canceled.
  unfoldable pub live_units : ℕ → List (Order F) → List (OrderItem F) → ℤ
  live_units id orders [] = pos 0
  live_units id orders (i ∷ items) =
      (if i.product_id == id && is_live i.order_id orders then i.quantity else pos 0)
      +ℤ live_units id orders items

  -- All the units of a product.
  unfoldable pub all_units : ℕ → Db F → ℤ
  all_units id db = stock_of id db.products +ℤ live_units id db.orders db.order_items

  -- There are as many units of every product in `d` as in `db`.
  abbrev pub SameTotals : Db F → Db F → Type 0
  SameTotals db d = (k : ℕ) → all_units k d ≡ all_units k db

  -- `order_id ... REFERENCES orders(id)` on every order item.
  abbrev pub HasOrder : List (Order F) → OrderItem F → Type 0
  HasOrder orders i = any (Orders.has_id i.order_id) orders ≡ true
