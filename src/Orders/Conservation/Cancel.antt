-- ===== src/Orders/Conservation/Cancel.antt =====
-- The units of a product through `Cancel` of orders/service_impl.go.
use soa_hw.Prelude.{
  ℕ, ◌≡◌, refl, ◌≡⟨◌⟩◌, ◌∎, ap, ◌∙◌, true, false, not, some, List, [], ◌==◌, ==_iff, find,
  find_sound, select, arith,
}
use soa_hw.Prelude.Int.{ℤ, pos, ◌+ℤ◌, int_laws}
use soa_hw.Domain.{Order, OrderItem}
use soa_hw.Domain.Status.{canceled, status_eq, can_transition_to}
use soa_hw.Store.{Env, Db, World}
use soa_hw.Store.Outcome.{
  Ends, Triple, Outside, Inside-map, Inside-IsSteady, Outside-IsSteady, Triple-bind,
  Triple-bind_fact, Triple-on_error, Triple-pure, Triple-weaken, Triple-raise_if, Triple-time_now,
  Triple-defer_rollback,
}
use soa_hw.Store.Statements.{Triple-begin_tx, Triple-commit}
use soa_hw.Orders.Contract as Orders
use soa_hw.Orders.Repository.{has_id, belongs}
use soa_hw.Orders.Inventory.{stock_of, units, is_live, all_units, SameTotals}
use soa_hw.Orders.Inventory.Items.{
  live_units-delete, live_units-cancel, is_live-overwrite_other, is_live-overwrite_self,
}
use soa_hw.Orders.Inventory.Statements.{ChangedOrder, update_order-ChangedOrder}
use soa_hw.Orders.Service.{cancel_in_tx, cancel}
use soa_hw.Orders.Conservation.{Holding, Holding-frame}
use soa_hw.Orders.Conservation.Loops.{restore_stock-Triple}
use soa_hw.Orders.Conservation.Redeem.{release_promo-Triple}
use soa_hw.Prelude.{not-true}

-- The stock with the units of some items added.
abbrev pub restored : {F : Type 0} → Db F → List (OrderItem F) → ℕ → ℤ
restored db items k = stock_of k db.products +ℤ units k items

-- A transaction that has just begun.
pub Holding-begin :
    {F : Type 0} (db : Db F) (items : List (OrderItem F)) (d : Db F)
    → d ≡ db
    → Holding db (restored db items) items d
Holding-begin {F = F} db items d e = record {
  orders = ap (λ (x : Db F). x.orders) e;
  order_items = ap (λ (x : Db F). x.order_items) e;
  stock = λ k. rw e;
}

cancelable_is_live :
    {F : Type 0} (id : ℕ) (orders : List (Order F)) (o : Order F)
    → find (has_id id) orders ≡ some o
    → can_transition_to o.status canceled ≡ true
    → is_live id orders ≡ true
unfolding is_live can_transition_to
cancelable_is_live id orders o found h = rw found (ground arith)

cancel_sum : (s l s0 l0 x u : ℤ) → s +ℤ pos 0 ≡ s0 +ℤ u → l ≡ x → l0 ≡ x +ℤ u → s +ℤ l ≡ s0 +ℤ l0
cancel_sum s l s0 l0 x u p q r =
    s +ℤ l
    ≡⟨ omega int_laws ⟩ s +ℤ pos 0 +ℤ l
    ≡⟨ (rw (p, q)) ⟩ s0 +ℤ u +ℤ x
    ≡⟨ omega int_laws ⟩ s0 +ℤ (x +ℤ u)
    ≡⟨ (rw r) ⟩ s0 +ℤ l0 ∎

module _ {F : Type 0} (db : Db F) (id : ℕ) (o changed : Order F)
    (found : find (has_id id) db.orders ≡ some o) (same_id : changed.id ≡ id) where
  -- After the order's row was overwritten, the other orders are live as before.
  pub changed_others :
      (d d' : Db F) (j : ℕ)
      → d.orders ≡ db.orders
      → ChangedOrder changed d d'
      → (j == id) ≡ false
      → is_live j d'.orders ≡ is_live j db.orders
  changed_others d d' j e c other =
      rw (c.orders, same_id, e)
        (is_live-overwrite_other j id changed c.total c.discount c.time db.orders other)

  -- The order itself is live by its new status.
  pub changed_self :
      (d d' : Db F)
      → d.orders ≡ db.orders
      → ChangedOrder changed d d'
      → is_live id d'.orders ≡ not (status_eq changed.status canceled)
  changed_self d d' e c =
      rw (c.orders, same_id, e)
        (is_live-overwrite_self id changed c.total c.discount c.time db.orders o found)

  canceled-SameTotals :
      (d d' : Db F)
      → is_live id db.orders ≡ true
      → changed.status ≡ canceled
      → Holding db (restored db (select (belongs id) db.order_items)) [] d
      → ChangedOrder changed d d'
      → SameTotals db d'
  unfolding all_units units
  canceled-SameTotals d d' live now_canceled h c k =
      cancel_sum _ _ _ _ _ _ (rw c.products (h.stock k))
        (rw (c.order_items, h.order_items)
          (live_units-cancel k id db.orders d'.orders db.order_items
            (changed_self d d' h.orders c ∙ rw now_canceled (unfold status_eq in refl))
            (λ j. changed_others d d' j h.orders c)))
        (live_units-delete k id db.orders db.order_items live)

module _ {F : Type 0} (env : Env F) (db : Db F) (id : ℕ) (o : Order F)
    (found : find (has_id id) db.orders ≡ some o) where
  pub found_id : o.id ≡ id
  found_id = (==_iff o.id id).0 (find_sound (has_id id) db.orders o found)

  cancel_in_tx-Triple :
      is_live id db.orders ≡ true
      → Triple db (Outside db) (cancel_in_tx env id o) (λ _ w. SameTotals db w.db)
  unfolding cancel_in_tx
  cancel_in_tx-Triple live = Triple-bind (Triple-on_error _ (Triple-begin_tx env)) λ _.
      Triple-bind_fact (Triple-on_error _ (Orders.get_items-Triple env id (Inside-IsSteady db _)))
        λ items e. rw (← e) (
          Triple-bind
            (Triple-weaken
              (restore_stock-Triple env (restored db (select (belongs id) db.order_items)) _)
              (λ w. Inside-map (Holding-begin db _)) (λ _ w p. p))
            λ _.
              Triple-bind
                (release_promo-Triple env _ (λ d d'. Holding-frame db _ [] d d') o.promo_code_id)
                λ _. Triple-time_now env (Inside-IsSteady db _) λ updated_at.
                  Triple-bind
                    (Triple-on_error _ (
                      Orders.update-Triple env _ _ _ (λ n row d d' h u.
                        canceled-SameTotals db id o _ found found_id d d' live refl h
                          (update_order-ChangedOrder env _ n d d' row u))))
                    λ _.
                      Triple-bind (Triple-on_error _ (Triple-commit env (SameTotals db)))
                        λ _. Triple-pure _)

module _ {F : Type 0} (env : Env F) (db : Db F) where
  -- The triple of `Cancel`.
  cancel-Triple :
      (id user_id : ℕ) → Triple db (Outside db) (cancel env id user_id) (λ _ w. SameTotals db w.db)
  unfolding cancel
  cancel-Triple id user_id =
      Triple-bind_fact (Triple-on_error _ (Orders.get_by_id-Triple env id (Outside-IsSteady db)))
        λ o found. Triple-raise_if _ _ (Outside-IsSteady db) λ own.
          Triple-raise_if _ _ (Outside-IsSteady db) λ allowed.
            Triple-defer_rollback (λ _. SameTotals db)
              (cancel_in_tx-Triple env db id o found
                (cancelable_is_live id db.orders o found (not-true _ allowed)))

-- `Cancel` either succeeds, and then the units of every product, in stock or in orders that are not
-- canceled, are as many as before, or it fails, and then the committed tables are as before,
-- whatever fails on the way.
pub cancel_conserves :
    {F : Type 0} (env : Env F) (id user_id : ℕ) (w : World F)
    → Ends w.db (λ _ w'. SameTotals w.db w'.db) (cancel env id user_id w)
cancel_conserves env id user_id w =
    (cancel-Triple env w.db id user_id).run w (record { same = refl })
