-- ===== src/Orders/Effects/Change.antt =====
-- What a successful `Update` or `Cancel` has checked, what it returns, and the row that it leaves.
use soa_hw.Prelude.{
  ℕ, ◌≡◌, refl, sym, ◌∙◌, true, some, List, [], ==_iff, find, select, update_where, find_sound,
}
use soa_hw.Domain.{Order, OrderItem, OrderWithItems}
use soa_hw.Domain.Status.{canceled, can_transition_to}
use soa_hw.Store.{Env, Db, World}
use soa_hw.Store.Action.{ok}
use soa_hw.Store.Outcome.{
  Ends, Triple, Outside, Inside, Inside-IsSteady, Outside-IsSteady, Triple-bind, Triple-bind_fact,
  Triple-on_error, Triple-pure, Triple-weaken, Triple-raise_if, Triple-time_now,
  Triple-defer_rollback,
}
use soa_hw.Store.Statements.{Triple-commit}
use soa_hw.Orders.Contract as Orders
use soa_hw.Orders.Repository.{has_id, belongs, update_order}
use soa_hw.Orders.Inventory.Statements.{update_order_rows, delete_items-DeletedItems}
use soa_hw.Orders.Service.{
  OrderItemRequest, replace_order, update_in_tx, update, cancel_in_tx, cancel,
}
use soa_hw.Orders.Conservation.Redeem.{release_promo-Triple}
use soa_hw.Prelude.{not-true}
use soa_hw.Orders.Effects.Frames.{
  Quotes, total_from, OfOrders, OfOrders-frame, begin_tx-Inside, restore_stock-Frame,
  create_items-Frame, reserve_items-Frame,
}

-- A row with what `new` says, these amounts and this time.
abbrev pub as_said : {F : Type 0} → Order F → F → F → ℕ → Order F → Order F
as_said new total discount time o = record o {
  status = new.status;
  promo_code_id = new.promo_code_id;
  total_amount = total;
  discount_amount = discount;
  updated_at = time;
}

-- The rows of the order `id` now hold what `new` says, the amounts as their columns round them.
pub record Overwrites {F : Type 0} (env : Env F) (db : Db F) (id : ℕ) (new : Order F)
    (orders : List (Order F)) : Type 0 where
  pub total : F
  pub discount : F
  pub is_total : env.numeric new.total_amount ≡ some total
  pub is_discount : env.numeric new.discount_amount ≡ some discount
  pub time : ℕ
  pub rows : orders ≡ update_where (has_id id) (as_said new total discount time) db.orders

-- The order that `Update` returns: all but the total and the time is the committed order `o`.
pub record Replaced {F : Type 0} (env : Env F) (db : Db F) (id : ℕ) (o : Order F)
    (requests : List OrderItemRequest) (r : OrderWithItems F) (orders : List (Order F))
    : Type 0 where
  pub same_status : r.order.status ≡ o.status
  pub same_promo : r.order.promo_code_id ≡ o.promo_code_id
  pub same_discount : r.order.discount_amount ≡ o.discount_amount
  pub quotes : Quotes db requests r.items
  pub total : r.order.total_amount ≡ total_from env env.double.zero r.items
  pub overwrites : Overwrites env db id r.order orders

-- The order that `Cancel` returns: the committed order `o` with the status CANCELED.
pub record Canceled {F : Type 0} (env : Env F) (db : Db F) (id : ℕ) (o : Order F)
    (r : OrderWithItems F) (orders : List (Order F)) : Type 0 where
  pub status : r.order.status ≡ canceled
  pub same_promo : r.order.promo_code_id ≡ o.promo_code_id
  pub same_total : r.order.total_amount ≡ o.total_amount
  pub same_discount : r.order.discount_amount ≡ o.discount_amount
  pub items : r.items ≡ select (belongs id) db.order_items
  pub overwrites : Overwrites env db id r.order orders

-- The committed order belongs to the user.
pub record Owned {F : Type 0} (db : Db F) (id user_id : ℕ) : Type 0 where
  pub order : Order F
  pub found : find (has_id id) db.orders ≡ some order
  pub owner : order.user_id ≡ user_id

overwrites :
    {F : Type 0} (env : Env F) (db : Db F) (id : ℕ) (new : Order F) (n : ℕ) (d d' : Db F)
    (row : Order F)
    → new.id ≡ id
    → d.orders ≡ db.orders
    → update_order env new n d ≡ ok (some row, d')
    → Overwrites env db id new d'.orders
overwrites env db id new n d d' row same e h =
    let (total, discount, is_total, is_discount, rows) = update_order_rows env new n d d' row h in
    record {
      total = total;
      discount = discount;
      is_total = is_total;
      is_discount = is_discount;
      time = n;
      rows = rows ∙ rw (same, e);
    }

module _ {F : Type 0} (env : Env F) (db : Db F) (id : ℕ) (o : Order F)
    (found : find (has_id id) db.orders ≡ some o) where
  private_id : o.id ≡ id
  private_id = (==_iff o.id id).0 (find_sound (has_id id) db.orders o found)

  replace_order-Replaced :
      (requests : List OrderItemRequest) (items : List (OrderItem F)) (total : F)
      → Quotes db requests items
      → total ≡ total_from env env.double.zero items
      → Triple db
          (Inside db (OfOrders (λ x. x ≡ db.orders)))
          (replace_order env id o items total)
          (λ r w. Replaced env db id o requests r w.db.orders)
  unfolding replace_order
  replace_order-Replaced requests items total q e =
      Triple-time_now env (Inside-IsSteady db _) λ updated_at.
        Triple-bind
          (Triple-on_error _ (
            Orders.update-Triple env _ _ (OfOrders (Overwrites env db id _))
              (λ n row d d' h u. overwrites env db id _ n d d' row private_id h u)))
          λ _.
            Triple-bind
              (Triple-on_error _ (
                Orders.delete_items-Triple env id _ (OfOrders (Overwrites env db id _))
                  (λ n d d' h u. rw (delete_items-DeletedItems id n d d' u).orders h)))
              λ _.
                Triple-bind
                  (create_items-Frame env _ (OfOrders-frame (Overwrites env db id _)) items)
                  λ _.
                    Triple-bind
                      (Triple-on_error _ (Triple-commit env (OfOrders (Overwrites env db id _))))
                      λ _.
                        Triple-weaken (Triple-pure _)
                          (λ w (m : Overwrites env db id _ w.db.orders). record {
                            same_status = refl;
                            same_promo = refl;
                            same_discount = refl;
                            quotes = q;
                            total = e;
                            overwrites = m;
                          })
                          (λ a w p. p)

  update_in_tx-Replaced :
      (requests : List OrderItemRequest)
      → Triple db
          (Outside db)
          (update_in_tx env id o requests)
          (λ r w. Replaced env db id o requests r w.db.orders)
  unfolding update_in_tx
  update_in_tx-Replaced requests =
      Triple-bind (begin_tx-Inside env _ (OfOrders (λ x. x ≡ db.orders)) refl) λ _.
        Triple-bind_fact (Triple-on_error _ (Orders.get_items-Triple env id (Inside-IsSteady db _)))
          λ items e.
            Triple-bind (restore_stock-Frame env _ (OfOrders-frame (λ x. x ≡ db.orders)) items) λ _.
              Triple-bind_fact
                (reserve_items-Frame env _ (OfOrders-frame (λ x. x ≡ db.orders)) id requests []
                  env.double.zero)
                λ r s.
                  replace_order-Replaced requests r.0 r.1 (rw s.items s.quotes) (rw s.items s.total)

  cancel_in_tx-Canceled :
      Triple db (Outside db) (cancel_in_tx env id o) (λ r w. Canceled env db id o r w.db.orders)
  unfolding cancel_in_tx
  cancel_in_tx-Canceled =
      Triple-bind (begin_tx-Inside env _ (OfOrders (λ x. x ≡ db.orders)) refl) λ _.
        Triple-bind_fact (Triple-on_error _ (Orders.get_items-Triple env id (Inside-IsSteady db _)))
          λ items e.
            Triple-bind (restore_stock-Frame env _ (OfOrders-frame (λ x. x ≡ db.orders)) items) λ _.
              Triple-bind (release_promo-Triple env _ (λ d d' s h. rw s.orders h) o.promo_code_id)
                λ _. Triple-time_now env (Inside-IsSteady db _) λ updated_at.
                  Triple-bind
                    (Triple-on_error _ (
                      Orders.update-Triple env _ _ (OfOrders (Overwrites env db id _))
                        (λ n row d d' h u. overwrites env db id _ n d d' row private_id h u)))
                    λ _.
                      Triple-bind
                        (Triple-on_error _ (Triple-commit env (OfOrders (Overwrites env db id _))))
                        λ _.
                          Triple-weaken (Triple-pure _)
                            (λ w (m : Overwrites env db id _ w.db.orders). record {
                              status = refl;
                              same_promo = refl;
                              same_total = refl;
                              same_discount = refl;
                              items = sym e;
                              overwrites = m;
                            })
                            (λ a w p. p)

-- A successful Update was called by the order's owner. The order that it returns has one item for each
-- requested one, of an active product with enough stock in the committed tables, at its price; its
-- total is their sum, without the discount, which stays on the order; its status and promo code are as
-- before. The order's row has the status, promo code, total and discount of the order that is
-- returned, the amounts as their columns round them. If Update fails, the committed tables are as
-- before.
pub update_replaces :
    {F : Type 0} (env : Env F) (id user_id : ℕ) (requests : List OrderItemRequest) (w : World F)
    → Ends w.db
        (λ r w'. (m : Owned w.db id user_id) × Replaced env w.db id m.order requests r w'.db.orders)
        (update env id user_id requests w)
unfolding update
update_replaces env id user_id requests w = (triple w.db).run w (record { same = refl })
  where
    triple :
        (db : Db _)
        → Triple db
            (Outside db)
            (update env id user_id requests)
            (λ r w'. (m : Owned db id user_id) × Replaced env db id m.order requests r w'.db.orders)
    triple db =
        Triple-bind_fact (Triple-on_error _ (Orders.get_by_id-Triple env id (Outside-IsSteady db)))
          λ o found. Triple-raise_if _ _ (Outside-IsSteady db) λ own.
            Triple-defer_rollback
              (λ r d. (m : Owned db id user_id) × Replaced env db id m.order requests r d.orders)
              (Triple-weaken (update_in_tx-Replaced env db id o found requests) (λ w p. p)
                (λ r w p. (
                  record { order = o; found = found; owner = (==_iff _ _).0 (not-true _ own) },
                  p,
                )))

-- A successful Cancel was called by the owner of an order whose status may become CANCELED. The order
-- that it returns has that status and the items of the committed tables; its promo code, total and
-- discount are as before. The order's row has the status, promo code, total and discount of the order
-- that is returned, the amounts as their columns round them. If Cancel fails, the committed tables are
-- as before.
pub cancel_cancels :
    {F : Type 0} (env : Env F) (id user_id : ℕ) (w : World F)
    → Ends w.db
        (λ r w'.
          (m : Owned w.db id user_id) × (can_transition_to m.order.status canceled ≡ true)
          × Canceled env w.db id m.order r w'.db.orders)
        (cancel env id user_id w)
unfolding cancel
cancel_cancels env id user_id w = (triple w.db).run w (record { same = refl })
  where
    triple :
        (db : Db _)
        → Triple db (Outside db) (cancel env id user_id) (λ r w'.
          (m : Owned db id user_id) × (can_transition_to m.order.status canceled ≡ true)
          × Canceled env db id m.order r w'.db.orders)
    triple db =
        Triple-bind_fact (Triple-on_error _ (Orders.get_by_id-Triple env id (Outside-IsSteady db)))
          λ o found. Triple-raise_if _ _ (Outside-IsSteady db) λ own.
            Triple-raise_if _ _ (Outside-IsSteady db) λ may.
              Triple-defer_rollback
                (λ r d.
                  (m : Owned db id user_id) × (can_transition_to m.order.status canceled ≡ true)
                  × Canceled env db id m.order r d.orders)
                (Triple-weaken (cancel_in_tx-Canceled env db id o found) (λ w p. p)
                  (λ r w p. (
                    record { order = o; found = found; owner = (==_iff _ _).0 (not-true _ own) },
                    not-true _ may,
                    p,
                  )))
