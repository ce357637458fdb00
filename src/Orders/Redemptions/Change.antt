-- ===== src/Orders/Redemptions/Change.antt =====
-- What `Update` and `Cancel` do to the tables of promo codes and of operations.
use soa_hw.Prelude.{ℕ, refl, ◌∙◌, Option, none, some, List, []}
use soa_hw.Domain.{Order, OrderItem}
use soa_hw.Store.{Env, Db, World}
use soa_hw.Store.Outcome.{
  Ends, Triple, Outside, Inside, Inside-IsSteady, Outside-IsSteady, Triple-bind, Triple-bind_fact,
  Triple-on_error, Triple-pure, Triple-raise_if, Triple-time_now, Triple-defer_rollback,
}
use soa_hw.Store.Statements.{Triple-commit}
use soa_hw.Promos.Contract as Promos
use soa_hw.Orders.Contract as Orders
use soa_hw.Orders.Inventory.Statements.{update_order-ChangedOrder, delete_items-DeletedItems}
use soa_hw.Orders.Service.{
  OrderItemRequest, replace_order, update_in_tx, update, release_promo, cancel_in_tx, cancel,
}
use soa_hw.Orders.Effects.Frames.{
  begin_tx-Inside, restore_stock-Frame, create_items-Frame, reserve_items-Frame,
}
use soa_hw.Orders.Redemptions.{release, Kept, Kept-frame, decrement_rows}

module _ {F : Type 0} (env : Env F) where
  module _ (db : Db F) where
    replace_order-Keeps :
        (id : ℕ) (o : Order F) (items : List (OrderItem F)) (total : F)
        → Triple db
            (Inside db (Kept db.promo_codes db.user_operations))
            (replace_order env id o items total)
            (λ r w. Kept db.promo_codes db.user_operations w.db)
    unfolding replace_order
    replace_order-Keeps id o items total = Triple-time_now env (Inside-IsSteady db _) λ updated_at.
        Triple-bind
          (Triple-on_error _ (
            Orders.update-Triple env _ _ (Kept db.promo_codes db.user_operations) (λ n row d d' h u.
              let s = update_order-ChangedOrder env _ n d d' row u in
              (s.promo_codes ∙ h.0, s.user_operations ∙ h.1))))
          λ _.
            Triple-bind
              (Triple-on_error _ (
                Orders.delete_items-Triple env id _ (Kept db.promo_codes db.user_operations)
                  (λ n d d' h u.
                    let s = delete_items-DeletedItems id n d d' u in
                    (s.promo_codes ∙ h.0, s.user_operations ∙ h.1))))
              λ _. Triple-bind (create_items-Frame env _ (Kept-frame _ _) items) λ _.
                Triple-bind
                  (Triple-on_error _ (Triple-commit env (Kept db.promo_codes db.user_operations)))
                  λ _. Triple-pure _

    update_in_tx-Keeps :
        (id : ℕ) (o : Order F) (requests : List OrderItemRequest)
        → Triple db
            (Outside db)
            (update_in_tx env id o requests)
            (λ r w. Kept db.promo_codes db.user_operations w.db)
    unfolding update_in_tx
    update_in_tx-Keeps id o requests =
        Triple-bind (begin_tx-Inside env _ (Kept db.promo_codes db.user_operations) (refl, refl))
          λ _.
            Triple-bind_fact
              (Triple-on_error _ (Orders.get_items-Triple env id (Inside-IsSteady db _)))
              λ items e. Triple-bind (restore_stock-Frame env _ (Kept-frame _ _) items) λ _.
                Triple-bind_fact
                  (reserve_items-Frame env _ (Kept-frame _ _) id requests [] env.double.zero)
                  λ r s. replace_order-Keeps id o r.0 r.1

    release_promo-Releases :
        (id : Option ℕ)
        → Triple db
            (Inside db (Kept db.promo_codes db.user_operations))
            (release_promo env id)
            (λ _. Inside db (Kept (release id db.promo_codes) db.user_operations))
    unfolding release_promo
    release_promo-Releases none = Triple-pure tt
    release_promo-Releases (some id) = Triple-on_error _ (
        Promos.decrement_uses-Triple env id _
          (Kept (release (some id) db.promo_codes) db.user_operations)
          (λ n d d' h e. decrement_rows env id n d d' _ _ h e))

    cancel_in_tx-Releases :
        (id : ℕ) (o : Order F)
        → Triple db
            (Outside db)
            (cancel_in_tx env id o)
            (λ r w. Kept (release r.order.promo_code_id db.promo_codes) db.user_operations w.db)
    unfolding cancel_in_tx
    cancel_in_tx-Releases id o =
        Triple-bind (begin_tx-Inside env _ (Kept db.promo_codes db.user_operations) (refl, refl))
          λ _.
            Triple-bind_fact
              (Triple-on_error _ (Orders.get_items-Triple env id (Inside-IsSteady db _)))
              λ items e. Triple-bind (restore_stock-Frame env _ (Kept-frame _ _) items) λ _.
                Triple-bind (release_promo-Releases o.promo_code_id) λ _.
                  Triple-time_now env (Inside-IsSteady db _) λ updated_at.
                    Triple-bind
                      (Triple-on_error _ (
                        Orders.update-Triple env _ _
                          (Kept (release o.promo_code_id db.promo_codes) db.user_operations)
                          (λ n row d d' h u.
                            let s = update_order-ChangedOrder env _ n d d' row u in
                            (s.promo_codes ∙ h.0, s.user_operations ∙ h.1))))
                      λ _.
                        Triple-bind
                          (Triple-on_error _ (
                            Triple-commit env
                              (Kept (release o.promo_code_id db.promo_codes) db.user_operations)))
                          λ _. Triple-pure _

  -- A successful call, by the tables of promo codes and of operations after it.
  pub update-Keeps :
      (id user_id : ℕ) (requests : List OrderItemRequest) (w : World F)
      → Ends w.db
          (λ r w'. Kept w.db.promo_codes w.db.user_operations w'.db)
          (update env id user_id requests w)
  unfolding update
  update-Keeps id user_id requests w = (triple w.db).run w (record { same = refl })
    where
      triple :
          (db : Db F)
          → Triple db
              (Outside db)
              (update env id user_id requests)
              (λ r w'. Kept db.promo_codes db.user_operations w'.db)
      triple db =
          Triple-bind_fact
            (Triple-on_error _ (Orders.get_by_id-Triple env id (Outside-IsSteady db)))
            λ o found. Triple-raise_if _ _ (Outside-IsSteady db) λ own.
              Triple-defer_rollback (λ _. Kept db.promo_codes db.user_operations)
                (update_in_tx-Keeps db id o requests)

  pub cancel-Releases :
      (id user_id : ℕ) (w : World F)
      → Ends w.db
          (λ r w'. Kept (release r.order.promo_code_id w.db.promo_codes) w.db.user_operations w'.db)
          (cancel env id user_id w)
  unfolding cancel
  cancel-Releases id user_id w = (triple w.db).run w (record { same = refl })
    where
      triple :
          (db : Db F)
          → Triple db
              (Outside db)
              (cancel env id user_id)
              (λ r w'. Kept (release r.order.promo_code_id db.promo_codes) db.user_operations w'.db)
      triple db =
          Triple-bind_fact
            (Triple-on_error _ (Orders.get_by_id-Triple env id (Outside-IsSteady db)))
            λ o found. Triple-raise_if _ _ (Outside-IsSteady db) λ own.
              Triple-raise_if _ _ (Outside-IsSteady db) λ may.
                Triple-defer_rollback
                  (λ r. Kept (release r.order.promo_code_id db.promo_codes) db.user_operations)
                  (cancel_in_tx-Releases db id o)
