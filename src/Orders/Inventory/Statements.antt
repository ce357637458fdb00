-- ===== src/Orders/Inventory/Statements.antt =====
-- What each statement of an order's transaction writes, and what it leaves alone.
use soa_hw.Prelude.{
  ℕ, ◌≡◌, refl, false, Option, none, some, [], ◌∷◌, ◌++◌, any, delete_where, update_where, arith,
  Option-cases, inl, inr,
}
use soa_hw.Prelude.Int.{ℤ}
use soa_hw.Domain.{Product, Order, OrderItem, UserOperation}
use soa_hw.Store.{Env, Db}
use soa_hw.Store.Action.{ok}
use soa_hw.Products.Repository.{add_stock}
use soa_hw.Promos.Repository.{increment, decrement}
use soa_hw.Operations.Repository.{insert_operation}
use soa_hw.Orders.Repository.{
  has_id, belongs, insert_order, put_order, insert_item, put_item, update_order, change_order,
  overwrite, delete_items, with_amounts,
}

-- The tables that hold units of products.
pub record SameUnits {F : Type 0} (d d' : Db F) : Type 0 where
  pub products : d'.products ≡ d.products
  pub orders : d'.orders ≡ d.orders
  pub order_items : d'.order_items ≡ d.order_items

-- Only the table of products differs.
pub record SameOrders {F : Type 0} (d d' : Db F) : Type 0 where
  pub orders : d'.orders ≡ d.orders
  pub order_items : d'.order_items ≡ d.order_items
  pub promo_codes : d'.promo_codes ≡ d.promo_codes
  pub user_operations : d'.user_operations ≡ d.user_operations

-- All but the tables of users, products and order items.
pub record SameBooks {F : Type 0} (d d' : Db F) : Type 0 where
  pub orders : d'.orders ≡ d.orders
  pub promo_codes : d'.promo_codes ≡ d.promo_codes
  pub user_operations : d'.user_operations ≡ d.user_operations

-- One order was added, with the identifier and status asked for.
pub record AddedOrder {F : Type 0} (o : Order F) (d d' : Db F) : Type 0 where
  pub row : Order F
  pub same_id : row.id ≡ o.id
  pub same_status : row.status ≡ o.status
  pub same_user : row.user_id ≡ o.user_id
  pub same_promo : row.promo_code_id ≡ o.promo_code_id
  pub fresh : any (has_id o.id) d.orders ≡ false
  pub orders : d'.orders ≡ d.orders ++ row ∷ []
  pub products : d'.products ≡ d.products
  pub order_items : d'.order_items ≡ d.order_items
  pub promo_codes : d'.promo_codes ≡ d.promo_codes
  pub user_operations : d'.user_operations ≡ d.user_operations

-- One item was added, with the order, product and quantity asked for.
pub record AddedItem {F : Type 0} (i : OrderItem F) (d d' : Db F) : Type 0 where
  pub row : OrderItem F
  pub same_order : row.order_id ≡ i.order_id
  pub same_product : row.product_id ≡ i.product_id
  pub same_quantity : row.quantity ≡ i.quantity
  pub order_items : d'.order_items ≡ d.order_items ++ row ∷ []
  pub products : d'.products ≡ d.products
  pub orders : d'.orders ≡ d.orders
  pub promo_codes : d'.promo_codes ≡ d.promo_codes
  pub user_operations : d'.user_operations ≡ d.user_operations

-- The rows of one order were overwritten.
pub record ChangedOrder {F : Type 0} (o : Order F) (d d' : Db F) : Type 0 where
  pub total : F
  pub discount : F
  pub time : ℕ
  pub orders : d'.orders ≡ update_where (has_id o.id) (overwrite o total discount time) d.orders
  pub products : d'.products ≡ d.products
  pub order_items : d'.order_items ≡ d.order_items
  pub promo_codes : d'.promo_codes ≡ d.promo_codes
  pub user_operations : d'.user_operations ≡ d.user_operations

-- The items of one order were deleted.
pub record DeletedItems {F : Type 0} (id : ℕ) (d d' : Db F) : Type 0 where
  pub orders : d'.orders ≡ d.orders
  pub products : d'.products ≡ d.products
  pub order_items : d'.order_items ≡ delete_where (belongs id) d.order_items
  pub promo_codes : d'.promo_codes ≡ d.promo_codes
  pub user_operations : d'.user_operations ≡ d.user_operations

pub delete_items-DeletedItems :
    {F : Type 0} (id n : ℕ) (d d' : Db F) → delete_items id n d ≡ ok (tt, d') → DeletedItems id d d'
unfolding delete_items
delete_items-DeletedItems id n d d' h = ground arith

module _ {F : Type 0} (env : Env F) where
  pub add_stock-SameOrders :
      (delta : ℤ) (id n : ℕ) (d d' : Db F) (p : Product F)
      → add_stock env delta id n d ≡ ok (some p, d')
      → SameOrders d d'
  unfolding add_stock
  add_stock-SameOrders delta id n d d' p h = ground arith

  pub insert_operation-Logged :
      (o : UserOperation) (n : ℕ) (d d' : Db F)
      → insert_operation env o n d ≡ ok (tt, d')
      → (d'.promo_codes ≡ d.promo_codes)
        × (d'.user_operations
            ≡ d.user_operations ++ record o { created_at = env.timestamp o.created_at } ∷ [])
  unfolding insert_operation
  insert_operation-Logged o n d d' h = (ground arith, ground arith)

  pub increment-SameUnits :
      (id n : ℕ) (d d' : Db F) → increment env id n d ≡ ok (tt, d') → SameUnits d d'
  unfolding increment
  increment-SameUnits id n d d' h = ground arith

  pub decrement-SameUnits :
      (id n : ℕ) (d d' : Db F) → decrement env id n d ≡ ok (tt, d') → SameUnits d d'
  unfolding decrement
  decrement-SameUnits id n d d' h = ground arith

  pub insert_operation-SameUnits :
      (o : UserOperation) (n : ℕ) (d d' : Db F)
      → insert_operation env o n d ≡ ok (tt, d')
      → SameUnits d d'
  unfolding insert_operation
  insert_operation-SameUnits o n d d' h = ground arith

  put_order-AddedOrder :
      (o row : Order F) (d d' : Db F)
      → row.id ≡ o.id
      → row.status ≡ o.status
      → row.user_id ≡ o.user_id
      → row.promo_code_id ≡ o.promo_code_id
      → put_order env row d ≡ ok (tt, d')
      → AddedOrder o d d'
  unfolding put_order
  put_order-AddedOrder o row d d' e s u q h = record {
    row = row;
    same_id = e;
    same_status = s;
    same_user = u;
    same_promo = q;
    fresh = rw (← e) (ground arith);
    orders = ground arith;
    products = ground arith;
    order_items = ground arith;
    promo_codes = ground arith;
    user_operations = ground arith;
  }

  pub insert_order-AddedOrder :
      (o : Order F) (n : ℕ) (d d' : Db F) → insert_order env o n d ≡ ok (tt, d') → AddedOrder o d d'
  unfolding insert_order
  insert_order-AddedOrder o n d d' h =
      go (env.numeric o.total_amount) (env.numeric o.discount_amount) h
    where
      go :
          (a b : Option F)
          → with_amounts a b (λ total discount.
            put_order env
              (record o {
                total_amount = total;
                discount_amount = discount;
                created_at = env.timestamp o.created_at;
                updated_at = env.timestamp o.updated_at;
              })
              d)
            ≡ ok (tt, d')
          → AddedOrder o d d'
      go none b e = cc
      go (some a) none e = cc
      go (some a) (some b) e = put_order-AddedOrder o _ d d' refl refl refl refl e

  put_item-AddedItem :
      (i : OrderItem F) (price : F) (d d' : Db F)
      → put_item env (record i { price_at_order = price }) d ≡ ok (tt, d')
      → AddedItem i d d'
  unfolding put_item
  put_item-AddedItem i price d d' h = record {
    row = record i { price_at_order = price };
    same_order = refl;
    same_product = refl;
    same_quantity = refl;
    order_items = ground arith;
    products = ground arith;
    orders = ground arith;
    promo_codes = ground arith;
    user_operations = ground arith;
  }

  pub insert_item-AddedItem :
      (i : OrderItem F) (n : ℕ) (d d' : Db F)
      → insert_item env i n d ≡ ok (tt, d')
      → AddedItem i d d'
  unfolding insert_item
  insert_item-AddedItem i n d d' h = elim (Option-cases (env.numeric i.price_at_order)) [
    | inl refused ↦ absurd (cc)
    | inr (price, e) ↦ put_item-AddedItem i price d d' (rw (e, insert_item) at h)
  ]

  pub update_order-ChangedOrder :
      (o : Order F) (n : ℕ) (d d' : Db F) (row : Order F)
      → update_order env o n d ≡ ok (some row, d')
      → ChangedOrder o d d'
  unfolding update_order
  update_order-ChangedOrder o n d d' row h =
      go (env.numeric o.total_amount) (env.numeric o.discount_amount) h
    where
      go :
          (a b : Option F)
          → with_amounts a b
              (λ total discount. change_order env o.id (overwrite o total discount n) d)
            ≡ ok (some row, d')
          → ChangedOrder o d d'
      go none b e = cc
      go (some a) none e = cc
      go (some a) (some b) e = record {
        total = a;
        discount = b;
        time = n;
        orders = ground arith;
        products = ground arith;
        order_items = ground arith;
        promo_codes = ground arith;
        user_operations = ground arith;
      }

  -- The amounts that an update of an order stores.
  pub update_order_rows :
      (o : Order F) (n : ℕ) (d d' : Db F) (row : Order F)
      → update_order env o n d ≡ ok (some row, d')
      → (total : F) × (discount : F) × (env.numeric o.total_amount ≡ some total)
        × (env.numeric o.discount_amount ≡ some discount)
        × (d'.orders ≡ update_where (has_id o.id) (overwrite o total discount n) d.orders)
  unfolding update_order
  update_order_rows o n d d' row h =
      go (env.numeric o.total_amount) (env.numeric o.discount_amount) h
    where
      go :
          (a b : Option F)
          → with_amounts a b
              (λ total discount. change_order env o.id (overwrite o total discount n) d)
            ≡ ok (some row, d')
          → (total : F) × (discount : F) × (a ≡ some total)
            × (b ≡ some discount)
            × (d'.orders ≡ update_where (has_id o.id) (overwrite o total discount n) d.orders)
      go none b e = absurd (cc)
      go (some a) none e = absurd (cc)
      go (some a) (some b) e = (a, b, refl, refl, ground arith)
