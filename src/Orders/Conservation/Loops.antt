-- ===== src/Orders/Conservation/Loops.antt =====
-- The loops of the service over stock and items.
use soa_hw.Prelude.{
  ◌&&◌, All-append_one, ℕ, ◌≡◌, refl, ◌∙◌, Bool, true, false, List, [], ◌∷◌, ◌++◌, ◌==◌, All, some,
  arith, if◌then◌else◌,
}
use soa_hw.Prelude.Int.{ℤ, pos, ◌+ℤ◌, ◌-ℤ◌, int_laws, neg_int64, neg_int64-eq, is_int4}
use soa_hw.Domain.{Product, OrderItem}
use soa_hw.Store.{Env, Db}
use soa_hw.Store.Action.{ok}
use soa_hw.Store.Outcome.{
  Triple, Inside, Inside-map, Inside-IsSteady, Triple-bind, Triple-bind_fact, Triple-on_error,
  Triple-pure, Triple-weaken, Triple-raise_if, Triple-uuid_new,
}
use soa_hw.Products.Repository.{add_stock}
use soa_hw.Products.Contract as Products
use soa_hw.Orders.Contract as Orders
use soa_hw.Orders.Inventory.{units, live_units}
use soa_hw.Orders.Inventory.Stock.{stock_of-add_stock}
use soa_hw.Orders.Inventory.Items.{units-append, live_units-append}
use soa_hw.Orders.Inventory.Statements.{add_stock-SameOrders, insert_item-AddedItem, AddedItem}
use soa_hw.Orders.Service.{OrderItemRequest, reserve_items, restore_stock, create_items}
use soa_hw.Orders.Conservation.{Holding, Placing}

abbrev pub InOrder : {F : Type 0} → ℕ → OrderItem F → Type 0
InOrder order_id i = i.order_id ≡ order_id

reserve_balance :
    (b : Bool) (s s' u q l : ℤ)
    → s' ≡ s +ℤ (if b then pos 0 -ℤ q else pos 0)
    → s +ℤ u ≡ l
    → s' +ℤ (u +ℤ ((if b then q else pos 0) +ℤ pos 0)) ≡ l
reserve_balance true s s' u q l h g = rw (h, ← g) (omega int_laws)
reserve_balance false s s' u q l h g = rw (h, ← g) (omega int_laws)

restore_balance :
    (b : Bool) (s s' u q l : ℤ)
    → s' ≡ s +ℤ (if b then q else pos 0)
    → s +ℤ ((if b then q else pos 0) +ℤ u) ≡ l
    → s' +ℤ u ≡ l
restore_balance true s s' u q l h g = rw (h, ← g) (omega int_laws)
restore_balance false s s' u q l h g = rw (h, ← g) (omega int_laws)

insert_balance :
    (b counts : Bool) (x u q l : ℤ)
    → x +ℤ (if counts then (if b then q else pos 0) +ℤ u else pos 0) ≡ l
    → x +ℤ ((if b && counts then q else pos 0) +ℤ pos 0) +ℤ (if counts then u else pos 0) ≡ l
insert_balance true true x u q l g = rw (← g) (omega int_laws)
insert_balance false true x u q l g = rw (← g) (omega int_laws)
insert_balance true false x u q l g = rw (← g) (omega int_laws)
insert_balance false false x u q l g = rw (← g) (omega int_laws)

module _ {F : Type 0} where
  module _ (counts : Bool) (level base : ℕ → ℤ) (order_id : ℕ) (all : List (OrderItem F)) where
    place_one :
        (rest : List (OrderItem F)) (i : OrderItem F) (d d' : Db F)
        → i.order_id ≡ order_id
        → Placing counts level base order_id all (i ∷ rest) d
        → AddedItem i d d'
        → Placing counts level base order_id all rest d'
    unfolding units live_units
    place_one rest i d d' own h a = record {
      live = rw a.orders h.live;
      stock = λ k. rw a.products (h.stock k);
      held = λ k.
          rw
            (
              a.orders,
              a.order_items,
              live_units-append k d.orders d.order_items (a.row ∷ []),
              a.same_order,
              own,
              h.live,
              a.same_product,
              a.same_quantity,
            )
            (insert_balance (i.product_id == k) counts _ _ _ _ (h.held k));
    }

module _ {F : Type 0} (env : Env F) where
  add_stock-is_int4 :
      (delta : ℤ) (id n : ℕ) (d d' : Db F) (p : Product F)
      → add_stock env delta id n d ≡ ok (some p, d')
      → is_int4 delta ≡ true
  unfolding add_stock
  add_stock-is_int4 delta id n d d' p h = ground arith

  module _ {db : Db F} (level : ℕ → ℤ) where
    reserve_one :
        (held : List (OrderItem F)) (i : OrderItem F) (n : ℕ) (p : Product F) (d d' : Db F)
        → Holding db level held d
        → add_stock env (neg_int64 i.quantity) i.product_id n d ≡ ok (some p, d')
        → Holding db level (held ++ i ∷ []) d'
    unfolding units
    reserve_one held i n p d d' h e =
        let frame = add_stock-SameOrders env _ _ n d d' p e in
        let negated = neg_int64-eq i.quantity (add_stock-is_int4 _ _ n d d' p e) in
        record {
          orders = frame.orders ∙ h.orders;
          order_items = frame.order_items ∙ h.order_items;
          stock = λ k. rw (units-append k held (i ∷ [])) (
              reserve_balance (i.product_id == k) _ _ _ _ _
                (rw negated at (stock_of-add_stock env _ _ n d d' p k e)) (h.stock k));
        }

    restore_one :
        (rest : List (OrderItem F)) (i : OrderItem F) (n : ℕ) (p : Product F) (d d' : Db F)
        → Holding db level (i ∷ rest) d
        → add_stock env i.quantity i.product_id n d ≡ ok (some p, d')
        → Holding db level rest d'
    unfolding units
    restore_one rest i n p d d' h e =
        let frame = add_stock-SameOrders env _ _ n d d' p e in
        record {
          orders = frame.orders ∙ h.orders;
          order_items = frame.order_items ∙ h.order_items;
          stock = λ k.
              restore_balance (i.product_id == k) _ _ _ _ _
                (stock_of-add_stock env _ _ n d d' p k e) (h.stock k);
        }

    -- The loop that gives back the stock of an order's items.
    pub restore_stock-Triple :
        (items : List (OrderItem F))
        → Triple db
            (Inside db (Holding db level items))
            (restore_stock env items)
            (λ _. Inside db (Holding db level []))
    unfolding restore_stock
    restore_stock-Triple [] = Triple-pure tt
    restore_stock-Triple (i ∷ items) =
        Triple-bind
          (Triple-on_error _
            (Products.update_stock-Triple env i.product_id i.quantity _ _ (restore_one items i)))
          λ _. restore_stock-Triple items

    -- The loop that reserves the requested items: what it collects is what has left the stock.
    pub reserve_items-Triple :
        (order_id : ℕ) (requests : List OrderItemRequest) (held : List (OrderItem F)) (total : F)
        → All (InOrder order_id) held
        → Triple db
            (Inside db (Holding db level held))
            (reserve_items env order_id requests held total)
            (λ r. Inside db (λ d. Holding db level r.0 d × All (InOrder order_id) r.0))
    unfolding reserve_items
    reserve_items-Triple order_id [] held total own =
        Triple-weaken (Triple-pure (held, total)) (λ w. Inside-map (λ d h. (h, own))) (λ a w p. p)
    reserve_items-Triple order_id (item ∷ requests) held total own =
        Triple-bind_fact
          (Triple-on_error _ (Products.get_by_id-Triple env item.product_id (Inside-IsSteady db _)))
          λ product found. Triple-raise_if _ _ (Inside-IsSteady db _) λ active.
            Triple-raise_if _ _ (Inside-IsSteady db _) λ enough.
              Triple-bind
                (Triple-on_error _ (
                  Products.update_stock-Triple env item.product_id (neg_int64 item.quantity) _
                    (λ d. (id : ℕ) → Holding db level (held ++ new_item product id ∷ []) d)
                    (λ n p d d' h e id. reserve_one held (new_item product id) n p d d' h e)))
                λ _. Triple-uuid_new env (Inside-IsSteady db _) λ id.
                  Triple-weaken
                    (reserve_items-Triple order_id requests (held ++ new_item product id ∷ []) _
                      (All-append_one _ held _ own refl))
                    (λ w. Inside-map (λ d k. k id)) (λ a w p. p)
      where
        new_item : Product F → ℕ → OrderItem F
        new_item product id = record {
          id = id;
          order_id = order_id;
          product_id = item.product_id;
          quantity = item.quantity;
          price_at_order = product.price;
        }

    module _ (counts : Bool) (base : ℕ → ℤ) (order_id : ℕ) (all : List (OrderItem F)) where
      -- The loop that inserts the items of an order.
      pub create_items-Triple :
          (rest : List (OrderItem F))
          → All (InOrder order_id) rest
          → Triple db
              (Inside db (Placing counts level base order_id all rest))
              (create_items env rest)
              (λ _. Inside db (Placing counts level base order_id all []))
      unfolding create_items
      create_items-Triple [] own = Triple-pure tt
      create_items-Triple (i ∷ rest) own =
          Triple-bind
            (Triple-on_error _ (
              Orders.create_item-Triple env i _ _ (λ n d d' h e.
                place_one counts level base order_id all rest i d d' own.0 h
                  (insert_item-AddedItem env i n d d' e))))
            λ _. create_items-Triple rest own.1
