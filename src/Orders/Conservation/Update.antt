-- ===== src/Orders/Conservation/Update.antt =====
-- The units of a product through `Update` of orders/service_impl.go.
use soa_hw.Prelude.{
  ℕ, ◌≡◌, refl, sym, ap, ◌∙◌, Bool, true, false, not, some, List, [], find, select, delete_where,
  All, arith, if◌then◌else◌,
}
use native.Mathlib.Decide.{ℕ_discrete}
use soa_hw.Prelude.Int.{ℤ, pos, ◌+ℤ◌, int_laws}
use soa_hw.Domain.{Order, OrderItem, OrderWithItems}
use soa_hw.Domain.Status.{canceled, status_eq}
use soa_hw.Store.{Env, Db, World}
use soa_hw.Store.Action.{ok}
use soa_hw.Store.Outcome.{
  after_ok, Ends, Triple, Outside, Inside, Inside-map, Inside-IsSteady, Outside-IsSteady,
  Triple-bind, Triple-bind_fact, Triple-on_error, Triple-pure, Triple-weaken, Triple-raise_if,
  Triple-time_now, Triple-defer_rollback,
}
use soa_hw.Store.Statements.{Triple-begin_tx, Triple-commit}
use soa_hw.Orders.Contract as Orders
use soa_hw.Orders.Repository.{has_id, belongs, delete_items}
use soa_hw.Orders.Inventory.{stock_of, units, is_live, live_units, all_units, SameTotals}
use soa_hw.Orders.Inventory.Items.{live_units-delete, live_units-delete_dead, live_units_cong}
use soa_hw.Orders.Inventory.Statements.{
  ChangedOrder, update_order-ChangedOrder, delete_items-DeletedItems,
}
use soa_hw.Orders.Service.{OrderItemRequest, replace_order, update_in_tx, update}
use soa_hw.Orders.Conservation.{Holding, Placing, all_units-placed, all_units-placed_canceled}
use soa_hw.Orders.Conservation.Loops.{
  InOrder, restore_stock-Triple, reserve_items-Triple, create_items-Triple,
}
use soa_hw.Orders.Conservation.Cancel.{
  restored, Holding-begin, changed_others, changed_self, found_id,
}

settled_sum : (s0 l0 x u : ℤ) → l0 ≡ x +ℤ u → s0 +ℤ u +ℤ x ≡ s0 +ℤ l0
settled_sum s0 l0 x u p = rw p (omega int_laws)

lost_sum : (s0 l0 x u : ℤ) → x ≡ l0 → s0 +ℤ u +ℤ x ≡ s0 +ℤ l0 +ℤ u
lost_sum s0 l0 x u p = rw p (omega int_laws)

module _ {F : Type 0} (db : Db F) (id : ℕ) where
  abbrev pub old_items : List (OrderItem F)
  old_items = select (belongs id) db.order_items

  -- What the other orders hold.
  abbrev others : ℕ → ℤ
  others k = live_units k db.orders (delete_where (belongs id) db.order_items)

  -- The order's row is overwritten, and its old items are still there.
  record Replacing (counts : Bool) (items : List (OrderItem F)) (d : Db F) : Type 0 where
    live : (j : ℕ) → is_live j d.orders ≡ is_live j db.orders
    self : is_live id d.orders ≡ counts
    order_items : d.order_items ≡ db.order_items
    stock : (k : ℕ) → stock_of k d.products +ℤ units k items ≡ restored db old_items k

  -- What the end of the transaction leaves, by whether the order counts.
  abbrev Settled : Bool → List (OrderItem F) → Db F → Type 0
  Settled true items d = SameTotals db d
  Settled false items d =
      (k : ℕ) → all_units k d +ℤ units k items ≡ all_units k db +ℤ units k old_items

  delete_items-Placing :
      (counts : Bool) (items : List (OrderItem F)) (n : ℕ) (d d' : Db F)
      → Replacing counts items d
      → delete_items id n d ≡ ok (tt, d')
      → Placing counts (restored db old_items) others id items items d'
  delete_items-Placing counts items n d d' r e =
      let del = delete_items-DeletedItems id n d d' e in
      record {
        live = rw del.orders r.self;
        stock = λ k. rw del.products (r.stock k);
        held = λ k.
            ap (λ x. x +ℤ (if counts then units k items else pos 0))
              (rw (del.orders, del.order_items, r.order_items)
                (live_units_cong k db.orders d.orders _ r.live));
      }

  settle :
      (counts : Bool) (items : List (OrderItem F)) (d : Db F)
      → is_live id db.orders ≡ counts
      → Placing counts (restored db old_items) others id items [] d
      → Settled counts items d
  settle true items d live p = λ k.
      all_units-placed _ _ id items d k p
      ∙ unfold all_units in
        settled_sum _ _ _ _ (live_units-delete k id db.orders db.order_items live)
  settle false items d live p = λ k.
      all_units-placed_canceled _ _ id items d k p
      ∙ unfold all_units in
        lost_sum _ _ _ _ (live_units-delete_dead k id db.orders db.order_items live)

  module _ (o changed : Order F) (found : find (has_id id) db.orders ≡ some o)
      (same_id : changed.id ≡ id) (same_status : changed.status ≡ o.status) where
    found_live : is_live id db.orders ≡ not (status_eq o.status canceled)
    unfolding is_live
    found_live = rw found

    keeps_live :
        (d d' : Db F) (j : ℕ)
        → d.orders ≡ db.orders
        → ChangedOrder changed d d'
        → is_live j d'.orders ≡ is_live j db.orders
    keeps_live d d' j e c = elim (ℕ_discrete j id) [
      | yes self ↦
          rw self
            (changed_self db id o changed found same_id d d' e c ∙ rw same_status (sym found_live))
      | no other ↦ changed_others db id o changed found same_id d d' j e c (ground arith)
    ]

    change-Replacing :
        (counts : Bool) (items : List (OrderItem F)) (d d' : Db F)
        → is_live id db.orders ≡ counts
        → Holding db (restored db old_items) items d
        → ChangedOrder changed d d'
        → Replacing counts items d'
    change-Replacing counts items d d' live h c = record {
      live = λ j. keeps_live d d' j h.orders c;
      self = keeps_live d d' id h.orders c ∙ live;
      order_items = c.order_items ∙ h.order_items;
      stock = λ k. rw c.products (h.stock k);
    }

module _ {F : Type 0} (env : Env F) (db : Db F) (id : ℕ) (counts : Bool)
    (live : is_live id db.orders ≡ counts) where
  replace_order-Triple :
      (o : Order F) (items : List (OrderItem F)) (total : F)
      → find (has_id id) db.orders ≡ some o
      → All (InOrder id) items
      → Triple db
          (Inside db (Holding db (restored db (old_items db id)) items))
          (replace_order env id o items total)
          (λ r w. Settled db id counts r.items w.db)
  unfolding replace_order
  replace_order-Triple o items total found own =
      Triple-time_now env (Inside-IsSteady db _) λ updated_at.
        Triple-bind
          (Triple-on_error _ (
            Orders.update-Triple env _ _ _ (λ n row d d' h u.
              change-Replacing db id o _ found (found_id env db id o found) refl counts items d d'
                live h (update_order-ChangedOrder env _ n d d' row u))))
          λ _.
            Triple-bind
              (Triple-on_error _
                (Orders.delete_items-Triple env id _ _ (delete_items-Placing db id counts items)))
              λ _. Triple-bind (create_items-Triple env _ counts _ id items items own) λ _.
                Triple-bind
                  (Triple-on_error _ (
                    Triple-weaken (Triple-commit env _) (λ w p. p)
                      (λ _ w p. settle db id counts items w.db live p)))
                  λ _. Triple-pure _

  update_in_tx-Triple :
      (o : Order F) (requests : List OrderItemRequest)
      → find (has_id id) db.orders ≡ some o
      → Triple db
          (Outside db)
          (update_in_tx env id o requests)
          (λ r w. Settled db id counts r.items w.db)
  unfolding update_in_tx
  update_in_tx-Triple o requests found = Triple-bind (Triple-on_error _ (Triple-begin_tx env)) λ _.
      Triple-bind_fact (Triple-on_error _ (Orders.get_items-Triple env id (Inside-IsSteady db _)))
        λ items e. rw (← e) (
          Triple-bind
            (Triple-weaken (restore_stock-Triple env (restored db (old_items db id)) _)
              (λ w. Inside-map (Holding-begin db _)) (λ _ w p. p))
            λ _. Triple-bind (reserve_items-Triple env _ id requests [] _ tt) λ r. record {
              run = λ w p.
                  (replace_order-Triple o r.0 r.1 found (p.holds.1)).run w
                    (Inside-map (λ d q. q.0) p);
            })

  -- The triple of `Update`.
  update-Triple :
      (user_id : ℕ) (requests : List OrderItemRequest)
      → Triple db
          (Outside db)
          (update env id user_id requests)
          (λ r w. Settled db id counts r.items w.db)
  unfolding update
  update-Triple user_id requests =
      Triple-bind_fact (Triple-on_error _ (Orders.get_by_id-Triple env id (Outside-IsSteady db)))
        λ o found. Triple-raise_if _ _ (Outside-IsSteady db) λ own.
          Triple-defer_rollback (λ r. Settled db id counts r.items)
            (update_in_tx-Triple o requests found)

-- `Update` of an order that is not canceled either succeeds, and then the units of every product, in
-- stock or in orders that are not canceled, are as many as before, or it fails, and then the
-- committed tables are as before, whatever fails on the way.
pub update_conserves :
    {F : Type 0} (env : Env F) (id user_id : ℕ) (requests : List OrderItemRequest) (w : World F)
    → is_live id w.db.orders ≡ true
    → Ends w.db (λ _ w'. SameTotals w.db w'.db) (update env id user_id requests w)
update_conserves env id user_id requests w live =
    (update-Triple env w.db id true live user_id requests).run w (record { same = refl })

canceled_dead :
    {F : Type 0} (db : Db F) (id : ℕ) (o : Order F)
    → find (has_id id) db.orders ≡ some o
    → o.status ≡ canceled
    → is_live id db.orders ≡ false
unfolding is_live status_eq
canceled_dead db id o found status = rw (found, status)

-- A call of Update for a canceled order that succeeds adds to the units in stock or in orders that are
-- not canceled the units of the order's old items, less those of its new items, although the
-- cancellation had given the old units back already.
pub update_of_canceled_adds :
    {F : Type 0} (env : Env F) (id user_id : ℕ) (requests : List OrderItemRequest) (w : World F)
    (o : Order F) (r : OrderWithItems F) (w' : World F)
    → find (has_id id) w.db.orders ≡ some o
    → o.status ≡ canceled
    → update env id user_id requests w ≡ (ok r, w')
    → (k : ℕ)
    → all_units k w'.db +ℤ units k r.items
      ≡ all_units k w.db +ℤ units k (select (belongs id) w.db.order_items)
update_of_canceled_adds env id user_id requests w o r w' found status e = after_ok w.db _ _ r w' e (
    (update-Triple env w.db id false (canceled_dead w.db id o found status) user_id requests).run w
      (record { same = refl }))
