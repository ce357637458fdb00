-- ===== src/Orders/Effects/Frames.antt =====
-- The parts of the service that leave the table of orders alone.
use mathlib.Core.List.{append-nil, append_assoc}
use soa_hw.Prelude.{not-true}
use soa_hw.Prelude.{subst, ℕ, ◌≡◌, refl, sym, ◌∙◌, List, [], ◌∷◌, ◌++◌, Bool, true, some, find}
use soa_hw.Prelude.Int.{ltb_ℤ, neg_int64}
use soa_hw.Domain.{Product, Order, OrderItem, is_product_active}
use soa_hw.Store.{Env, Db}
use soa_hw.Store.Action.{Error, on_error, begin_tx}
use soa_hw.Store.Statements.{Triple-begin_tx}
use soa_hw.Store.Outcome.{
  Triple, Outside, Inside, Inside-map, Inside-IsSteady, Triple-bind, Triple-bind_fact,
  Triple-on_error, Triple-pure, Triple-weaken, Triple-raise_if, Triple-uuid_new, Triple-return,
  Returns,
}
use soa_hw.Products.Contract as Products
use soa_hw.Products.Repository.{has_id}
use soa_hw.Orders.Contract as Orders
use soa_hw.Orders.Inventory.Statements.{
  SameBooks, SameOrders, AddedItem, add_stock-SameOrders, insert_item-AddedItem,
}
use soa_hw.Orders.Service.{OrderItemRequest, reserve_items, restore_stock, create_items}

-- What an order item takes from its request and from the committed row of the product: the product
-- is active and has the stock, and its price is the price of the order.
pub record Quoted {F : Type 0} (db : Db F) (r : OrderItemRequest) (i : OrderItem F) : Type 0 where
  pub product : Product F
  pub found : find (has_id r.product_id) db.products ≡ some product
  pub active : is_product_active product.status ≡ true
  pub enough : ltb_ℤ product.stock r.quantity ≡ Bool.false
  pub same_product : i.product_id ≡ r.product_id
  pub same_quantity : i.quantity ≡ r.quantity
  pub same_price : i.price_at_order ≡ product.price

-- One item for each request, in order.
abbrev pub Quotes : {F : Type 0} → Db F → List OrderItemRequest → List (OrderItem F) → Type 0
Quotes db [] [] = Unit
Quotes db (r ∷ rs) (i ∷ items) = Quoted db r i × Quotes db rs items
Quotes db [] (i ∷ items) = ⊥
Quotes db (r ∷ rs) [] = ⊥

-- The sum of price times quantity, from the left, after `total`.
unfoldable pub total_from : {F : Type 0} → Env F → F → List (OrderItem F) → F
total_from env total [] = total
total_from env total (i ∷ items) =
    total_from env
      (env.double.add total (env.double.mul i.price_at_order (env.double.of_int i.quantity))) items

-- What `reserve_items` returns, of the items collected before.
pub record Reserves {F : Type 0} (env : Env F) (db : Db F) (requests : List OrderItemRequest)
    (before : List (OrderItem F)) (start : F) (r : List (OrderItem F) × F) : Type 0 where
  pub added : List (OrderItem F)
  pub items : r.0 ≡ before ++ added
  pub quotes : Quotes db requests added
  pub total : r.1 ≡ total_from env start added

-- A property of the table of orders.
abbrev pub OfOrders : {F : Type 0} → (List (Order F) → Type 0) → Db F → Type 0
OfOrders R d = R d.orders

pub OfOrders-frame :
    {F : Type 0} (R : List (Order F) → Type 0) (d d' : Db F)
    → SameBooks d d'
    → OfOrders R d
    → OfOrders R d'
OfOrders-frame R d d' s h = rw s.orders h

stock_books : {F : Type 0} (d d' : Db F) → SameOrders d d' → SameBooks d d'
stock_books d d' s = record {
  orders = s.orders;
  promo_codes = s.promo_codes;
  user_operations = s.user_operations;
}

item_books : {F : Type 0} (i : OrderItem F) (d d' : Db F) → AddedItem i d d' → SameBooks d d'
item_books i d d' a = record {
  orders = a.orders;
  promo_codes = a.promo_codes;
  user_operations = a.user_operations;
}

-- A property of the tables of orders and of promo codes.
module _ {F : Type 0} (env : Env F) {db : Db F} (P : Db F → Type 0)
    (frame : (d d' : Db F) → SameBooks d d' → P d → P d') where
  pub restore_stock-Frame :
      (items : List (OrderItem F))
      → Triple db (Inside db P) (restore_stock env items) (λ _. Inside db P)
  unfolding restore_stock
  restore_stock-Frame [] = Triple-pure tt
  restore_stock-Frame (i ∷ items) =
      Triple-bind
        (Triple-on_error _ (
          Products.update_stock-Triple env _ _ _ P (λ n p d d' h e.
            frame d d' (stock_books d d' (add_stock-SameOrders env _ _ n d d' p e)) h)))
        λ _. restore_stock-Frame items

  pub create_items-Frame :
      (items : List (OrderItem F))
      → Triple db (Inside db P) (create_items env items) (λ _. Inside db P)
  unfolding create_items
  create_items-Frame [] = Triple-pure tt
  create_items-Frame (i ∷ items) =
      Triple-bind
        (Triple-on_error _ (
          Orders.create_item-Triple env i _ P (λ n d d' h e.
            frame d d' (item_books i d d' (insert_item-AddedItem env i n d d' e)) h)))
        λ _. create_items-Frame items

  pub reserve_items-Frame :
      (order_id : ℕ) (requests : List OrderItemRequest) (held : List (OrderItem F)) (total : F)
      → Triple db
          (Inside db P)
          (reserve_items env order_id requests held total)
          (Returns (Inside db P) (Reserves env db requests held total))
  unfolding reserve_items
  reserve_items-Frame order_id [] held total = Triple-return _ (record {
    added = [];
    items = sym (append-nil held);
    quotes = tt;
    total = unfold total_from in refl;
  })
  reserve_items-Frame order_id (item ∷ requests) held total =
      Triple-bind_fact
        (Triple-on_error _ (Products.get_by_id-Triple env item.product_id (Inside-IsSteady db _)))
        λ product found. Triple-raise_if _ _ (Inside-IsSteady db _) λ active.
          Triple-raise_if _ _ (Inside-IsSteady db _) λ enough.
            Triple-bind
              (Triple-on_error _ (
                Products.update_stock-Triple env item.product_id (neg_int64 item.quantity) _ P
                  (λ n p d d' h e.
                    frame d d' (stock_books d d' (add_stock-SameOrders env _ _ n d d' p e)) h)))
              λ _. Triple-uuid_new env (Inside-IsSteady db _) λ id.
                Triple-weaken (reserve_items-Frame order_id requests _ _) (λ w p. p)
                  (λ r w p. (p.0, one_more product id found (not-true _ active) enough r p.1))
    where
      new_item : Product F → ℕ → OrderItem F
      new_item product id = record {
        id = id;
        order_id = order_id;
        product_id = item.product_id;
        quantity = item.quantity;
        price_at_order = product.price;
      }

      one_more :
          (product : Product F) (id : ℕ)
          → find (has_id item.product_id) db.products ≡ some product
          → is_product_active product.status ≡ true
          → ltb_ℤ product.stock item.quantity ≡ Bool.false
          → (r : List (OrderItem F) × F)
          → Reserves env db requests
              (held ++ new_item product id ∷ [])
              (env.double.add total
                (env.double.mul product.price (env.double.of_int item.quantity)))
              r
          → Reserves env db (item ∷ requests) held total r
      one_more product id found active enough r s = record {
        added = new_item product id ∷ s.added;
        items = s.items ∙ append_assoc held _ s.added;
        quotes = (
          record {
            product = product;
            found = found;
            active = active;
            enough = enough;
            same_product = refl;
            same_quantity = refl;
            same_price = refl;
          },
          s.quotes,
        );
        total = s.total ∙ unfold total_from in refl;
      }

-- A transaction begins with the committed tables.
pub begin_tx-Inside :
    {F : Type 0} (env : Env F) {db : Db F} (f : Error → Error) (P : Db F → Type 0)
    → P db
    → Triple db (Outside db) (on_error f (begin_tx env)) (λ _. Inside db P)
begin_tx-Inside env f P p =
    Triple-weaken (Triple-on_error _ (Triple-begin_tx env)) (λ w q. q)
      (λ _ w. Inside-map (λ d e. subst P (sym e) p))
