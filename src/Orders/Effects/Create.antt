-- ===== src/Orders/Effects/Create.antt =====
-- What a successful `Create` has checked, what it returns, and the row that it leaves.
use soa_hw.Prelude.{
  ℕ, ◌≡◌, refl, ap, ◌∙◌, Bool, true, false, Option, none, some, List, [], ◌∷◌, ◌++◌, map, All, any,
  find, select, String,
}
use soa_hw.Prelude.Int.{ℤ}
use soa_hw.Domain.{Order, OrderItem, OrderWithItems, operation_create_order}
use soa_hw.Domain.Status.{created}
use soa_hw.Store.{Env, Db, World}
use soa_hw.Store.Outcome.{
  Ends, Triple, Outside, Inside, Inside-IsSteady, Outside-IsSteady, Triple-bind, Triple-bind_fact,
  Triple-on_error, Triple-pure, Triple-weaken, Triple-raise_if, Triple-uuid_new, Triple-time_now,
  Triple-defer_rollback,
}
use soa_hw.Store.Statements.{Triple-commit}
use soa_hw.Operations.Repository.{is_by, latest}
use soa_hw.Operations.Contract.{Limits}
use soa_hw.Operations.Contract as Operations
use soa_hw.Orders.Contract as Orders
use soa_hw.Orders.Repository.{has_id, is_active}
use soa_hw.Orders.Inventory.Statements.{
  AddedOrder, SameUnits, insert_order-AddedOrder, insert_operation-SameUnits,
}
use soa_hw.Orders.Service.{
  OrderItemRequest, set_order_id, nil_uuid, is_some, place_order, create_in_tx, create,
}
use soa_hw.Orders.Conservation.Loops.{InOrder}
use soa_hw.Orders.Conservation.Create.{InOrder-set_order_id}
use soa_hw.Orders.Conservation.Redeem.{Applied, apply_promo-Triple}
use soa_hw.Prelude.{not-true}
use soa_hw.Orders.Effects.Frames.{
  Quotes, total_from, begin_tx-Inside, OfOrders-frame, OfOrders, create_items-Frame,
  reserve_items-Frame,
}

-- The order that a call with these arguments returns, and the rows of orders after it.
pub record Placed {F : Type 0} (env : Env F) (db : Db F) (user_id : ℕ)
    (requests : List OrderItemRequest) (code : Option String) (r : OrderWithItems F)
    (orders : List (Order F)) : Type 0 where
  pub owner : r.order.user_id ≡ user_id
  pub status : r.order.status ≡ created
  pub quotes : Quotes db requests r.items
  pub own_items : All (InOrder r.order.id) r.items
  pub discount :
      Applied env db code
        (total_from env env.double.zero r.items)
        (r.order.discount_amount, r.order.promo_code_id)
  pub total :
      r.order.total_amount
      ≡ env.double.sub (total_from env env.double.zero r.items) r.order.discount_amount
  pub row : Order F
  pub rows : orders ≡ db.orders ++ row ∷ []
  pub fresh : any (has_id r.order.id) db.orders ≡ false
  pub row_id : row.id ≡ r.order.id
  pub row_user : row.user_id ≡ user_id
  pub row_status : row.status ≡ created
  pub row_promo : row.promo_code_id ≡ r.order.promo_code_id

-- What `Create` asks for before it begins.
pub record MayPlace {F : Type 0} (env : Env F) (db : Db F) (minutes : ℤ) (user_id : ℕ)
    : Type 0 where
  pub answer : Bool × ℤ
  pub limits :
      Limits env minutes
        (latest (select (is_by user_id operation_create_order) db.user_operations))
        answer
  pub allowed : answer.0 ≡ true
  pub none_active : find (is_active user_id) db.orders ≡ none

module _ {F : Type 0} (env : Env F) (db : Db F) where
  Quotes-set_order_id :
      (id : ℕ) (requests : List OrderItemRequest) (items : List (OrderItem F))
      → Quotes db requests items
      → Quotes db requests (map (set_order_id id) items)
  Quotes-set_order_id id [] [] q = tt
  Quotes-set_order_id id (r ∷ rs) (i ∷ items) q = (
    record {
      product = q.0.product;
      found = q.0.found;
      active = q.0.active;
      enough = q.0.enough;
      same_product = q.0.same_product;
      same_quantity = q.0.same_quantity;
      same_price = q.0.same_price;
    },
    Quotes-set_order_id id rs items q.1,
  )
  Quotes-set_order_id id [] (i ∷ items) q = absurd q
  Quotes-set_order_id id (r ∷ rs) [] q = absurd q

  total_from-set_order_id :
      (id : ℕ) (items : List (OrderItem F)) (start : F)
      → total_from env start (map (set_order_id id) items) ≡ total_from env start items
  unfolding total_from
  total_from-set_order_id id [] start = refl
  total_from-set_order_id id (i ∷ items) start = total_from-set_order_id id items _

  pub is_some-none : (o : Option (Order F)) → is_some env o ≡ false → o ≡ none
  is_some-none none h = refl
  is_some-none (some o) h = cc

  -- One order was added to those of `db`.
  record OneMore (o : Order F) (orders : List (Order F)) : Type 0 where
    row : Order F
    rows : orders ≡ db.orders ++ row ∷ []
    fresh : any (has_id o.id) db.orders ≡ false
    row_id : row.id ≡ o.id
    row_user : row.user_id ≡ o.user_id
    row_status : row.status ≡ o.status
    row_promo : row.promo_code_id ≡ o.promo_code_id

  one_more :
      (o : Order F) (d d' : Db F) → d.orders ≡ db.orders → AddedOrder o d d' → OneMore o d'.orders
  one_more o d d' e a = record {
    row = a.row;
    rows = a.orders ∙ ap (λ x. x ++ a.row ∷ []) e;
    fresh = rw (← e) a.fresh;
    row_id = a.same_id;
    row_user = a.same_user;
    row_status = a.same_status;
    row_promo = a.same_promo;
  }

  same_orders :
      (R : List (Order F) → Type 0) (d d' : Db F) → SameUnits d d' → OfOrders R d → OfOrders R d'
  same_orders R d d' s h = rw s.orders h

  place_order-Placed :
      (user_id : ℕ) (requests : List OrderItemRequest) (code : Option String)
      (items : List (OrderItem F)) (total : F)
      → Quotes db requests items
      → total ≡ total_from env env.double.zero items
      → Triple db
          (Inside db (OfOrders (λ x. x ≡ db.orders)))
          (place_order env user_id code items total)
          (λ r w. Placed env db user_id requests code r w.db.orders)
  unfolding place_order
  place_order-Placed user_id requests code items total q e =
      Triple-bind_fact (apply_promo-Triple env _ (same_orders (λ x. x ≡ db.orders)) code total)
        λ applied a. Triple-uuid_new env (Inside-IsSteady db _) λ id.
          Triple-time_now env (Inside-IsSteady db _) λ created_at.
            Triple-time_now env (Inside-IsSteady db _) λ updated_at.
              Triple-bind
                (Triple-on_error _ (
                  Orders.create-Triple env _ _ (OfOrders (OneMore _))
                    (λ n d d' h c. one_more _ d d' h (insert_order-AddedOrder env _ n d d' c))))
                λ _. Triple-bind (create_items-Frame env _ (OfOrders-frame (OneMore _)) _) λ _.
                  Triple-uuid_new env (Inside-IsSteady db _) λ operation_id.
                    Triple-time_now env (Inside-IsSteady db _) λ operation_time.
                      Triple-bind
                        (Triple-on_error _ (
                          Operations.create-Triple env _ _ (OfOrders (OneMore _)) (λ n d d' h c.
                            same_orders (OneMore _) d d' (insert_operation-SameUnits env _ n d d' c)
                              h)))
                        λ _.
                          Triple-bind (Triple-on_error _ (Triple-commit env (OfOrders (OneMore _))))
                            λ _.
                              Triple-weaken (Triple-pure _)
                                (λ w (m : OneMore _ w.db.orders). record {
                                  owner = refl;
                                  status = refl;
                                  quotes = Quotes-set_order_id id requests items q;
                                  own_items = InOrder-set_order_id id items;
                                  discount = rw (total_from-set_order_id id items _, ← e) a;
                                  total = rw (total_from-set_order_id id items _, ← e);
                                  row = m.row;
                                  rows = m.rows;
                                  fresh = m.fresh;
                                  row_id = m.row_id;
                                  row_user = m.row_user;
                                  row_status = m.row_status;
                                  row_promo = m.row_promo;
                                })
                                (λ a w p. p)

  pub create_in_tx-Placed :
      (user_id : ℕ) (requests : List OrderItemRequest) (code : Option String)
      → Triple db
          (Outside db)
          (create_in_tx env user_id requests code)
          (λ r w. Placed env db user_id requests code r w.db.orders)
  unfolding create_in_tx
  create_in_tx-Placed user_id requests code =
      Triple-bind (begin_tx-Inside env _ (OfOrders (λ x. x ≡ db.orders)) refl) λ _.
        Triple-bind_fact
          (reserve_items-Frame env _ (OfOrders-frame (λ x. x ≡ db.orders)) nil_uuid requests []
            env.double.zero)
          λ r s.
            place_order-Placed user_id requests code r.0 r.1 (rw s.items s.quotes)
              (rw s.items s.total)

  -- The second triple of `Create`.
  pub create-Placed :
      (minutes : ℤ) (user_id : ℕ) (requests : List OrderItemRequest) (code : Option String)
      → Triple db (Outside db) (create env minutes user_id requests code) (λ r w.
        MayPlace env db minutes user_id × Placed env db user_id requests code r w.db.orders)
  unfolding create
  create-Placed minutes user_id requests code =
      Triple-bind_fact
        (Triple-on_error _
          (Operations.check_rate_limit-Triple env user_id _ minutes (Outside-IsSteady db)))
        λ limit l. Triple-raise_if _ _ (Outside-IsSteady db) λ allowed.
          Triple-bind_fact
            (Triple-on_error _ (Orders.get_active_order-Triple env user_id (Outside-IsSteady db)))
            λ active a. Triple-raise_if _ _ (Outside-IsSteady db) λ none_active.
              Triple-defer_rollback
                (λ r d.
                  MayPlace env db minutes user_id × Placed env db user_id requests code r d.orders)
                (Triple-weaken (create_in_tx-Placed user_id requests code) (λ w p. p)
                  (λ r w p. (
                    record {
                      answer = limit;
                      limits = l;
                      allowed = not-true _ allowed;
                      none_active = a ∙ is_some-none active none_active;
                    },
                    p,
                  )))

-- A successful `Create` was allowed by the rate limit at a time that the clock gave and found no
-- active order of the user. The order that it returns is the user's and has status CREATED; it has
-- one item for each requested one, of a product that is active and has enough stock in the committed
-- tables, at that product's price; its discount is the one of the redeemed promo code, which was
-- valid, or zero without a code; its total is the sum of price times quantity less the discount. The
-- table of orders has one row more, with a new identifier. If `Create` fails, the committed tables
-- are as before.
pub create_places :
    {F : Type 0} (env : Env F) (minutes : ℤ) (user_id : ℕ) (requests : List OrderItemRequest)
    (code : Option String) (w : World F)
    → Ends w.db
        (λ r w'.
          MayPlace env w.db minutes user_id × Placed env w.db user_id requests code r w'.db.orders)
        (create env minutes user_id requests code w)
create_places env minutes user_id requests code w =
    (create-Placed env w.db minutes user_id requests code).run w (record { same = refl })
