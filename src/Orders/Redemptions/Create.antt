-- ===== src/Orders/Redemptions/Create.antt =====
-- What `Create` does to the tables of promo codes and of operations.
use soa_hw.Prelude.{
  ℕ, ◌≡◌, refl, ◌∙◌, Bool, true, false, Option, none, some, List, [], String, str_eq, if◌then◌else◌,
}
use soa_hw.Prelude.Int.{ℤ}
use soa_hw.Domain.{OrderItem, OrderWithItems}
use soa_hw.Store.{Env, Db, World}
use soa_hw.Store.Action.{pure}
use soa_hw.Store.Outcome.{
  Ends, Triple, Outside, Inside, Inside-IsSteady, Outside-IsSteady, Triple-bind, Triple-bind_fact,
  Triple-on_error, Triple-pure, Triple-raise_if, Triple-uuid_new, Triple-time_now, Triple-clock,
  Triple-defer_rollback,
}
use soa_hw.Store.Statements.{Triple-commit}
use soa_hw.Promos.Contract as Promos
use soa_hw.Operations.Contract as Operations
use soa_hw.Orders.Contract as Orders
use soa_hw.Orders.Inventory.Statements.{insert_order-AddedOrder}
use soa_hw.Orders.Service.{
  OrderItemRequest, nil_uuid, apply_code, apply_promo, place_order, create_in_tx, create,
}
use soa_hw.Orders.Effects.Frames.{begin_tx-Inside, create_items-Frame, reserve_items-Frame}
use soa_hw.Orders.Redemptions.{redeem, Kept, Kept-frame, Logged, increment_rows, log_row}

module _ {F : Type 0} (env : Env F) where
  module _ (db : Db F) where
    apply_code-Redeems :
        (code : String) (total : F)
        → Triple db
            (Inside db (Kept db.promo_codes db.user_operations))
            (apply_code env code total)
            (λ r. Inside db (Kept (redeem r.1 db.promo_codes) db.user_operations))
    unfolding apply_code
    apply_code-Redeems code total =
        Triple-bind_fact
          (Triple-on_error _ (Promos.get_by_code-Triple env code (Inside-IsSteady db _)))
          λ promo found. Triple-time_now env (Inside-IsSteady db _) λ now.
            Triple-raise_if _ _ (Inside-IsSteady db _) λ valid.
              Triple-raise_if _ _ (Inside-IsSteady db _) λ enough.
                Triple-bind
                  (Triple-on_error _ (
                    Promos.increment_uses-Triple env promo.id _
                      (Kept (redeem (some promo.id) db.promo_codes) db.user_operations)
                      (λ n d d' h e. increment_rows env promo.id n d d' _ _ h e)))
                  λ _. Triple-pure _

    apply_promo-Redeems :
        (code : Option String) (total : F)
        → Triple db
            (Inside db (Kept db.promo_codes db.user_operations))
            (apply_promo env code total)
            (λ r. Inside db (Kept (redeem r.1 db.promo_codes) db.user_operations))
    unfolding apply_promo
    apply_promo-Redeems none total = Triple-pure _
    apply_promo-Redeems (some code) total = by_test (str_eq code "")
      where
        by_test :
            (b : Bool)
            → Triple db
                (Inside db (Kept db.promo_codes db.user_operations))
                (if b then pure (env.double.zero, none) else apply_code env code total)
                (λ r. Inside db (Kept (redeem r.1 db.promo_codes) db.user_operations))
        by_test true = Triple-pure _
        by_test false = apply_code-Redeems code total

    -- The tables after a new order of the user with this promo code.
    abbrev pub After : ℕ → Option ℕ → Db F → Type 0
    After user_id id d =
        (d.promo_codes ≡ redeem id db.promo_codes)
        × Logged env user_id db.user_operations d.user_operations

    -- The tables after a call that returns `r`.
    abbrev pub Entered : ℕ → OrderWithItems F → Db F → Type 0
    Entered user_id r d = After user_id r.order.promo_code_id d

    place_order-Redeems :
        (user_id : ℕ) (code : Option String) (items : List (OrderItem F)) (total : F)
        → Triple db
            (Inside db (Kept db.promo_codes db.user_operations))
            (place_order env user_id code items total)
            (λ r w. Entered user_id r w.db)
    unfolding place_order
    place_order-Redeems user_id code items total =
        Triple-bind (apply_promo-Redeems code total) λ applied.
          Triple-uuid_new env (Inside-IsSteady db _) λ id.
            Triple-time_now env (Inside-IsSteady db _) λ created_at.
              Triple-time_now env (Inside-IsSteady db _) λ updated_at.
                Triple-bind
                  (Triple-on_error _ (
                    Orders.create-Triple env _ _
                      (Kept (redeem applied.1 db.promo_codes) db.user_operations)
                      (λ n d d' h c.
                        let s = insert_order-AddedOrder env _ n d d' c in
                        (s.promo_codes ∙ h.0, s.user_operations ∙ h.1))))
                  λ _. Triple-bind (create_items-Frame env _ (Kept-frame _ _) _) λ _.
                    Triple-uuid_new env (Inside-IsSteady db _) λ operation_id.
                      Triple-clock env (Inside-IsSteady db _) λ operation_time call is_now.
                        Triple-bind
                          (Triple-on_error _ (
                            Operations.create-Triple env _ _ (After user_id applied.1)
                              (λ n d d' h c.
                                log_row env _ user_id call n d d' _ _ refl refl is_now h c)))
                          λ _.
                            Triple-bind
                              (Triple-on_error _ (Triple-commit env (After user_id applied.1)))
                              λ _. Triple-pure _

    create_in_tx-Redeems :
        (user_id : ℕ) (requests : List OrderItemRequest) (code : Option String)
        → Triple db
            (Outside db)
            (create_in_tx env user_id requests code)
            (λ r w. Entered user_id r w.db)
    unfolding create_in_tx
    create_in_tx-Redeems user_id requests code =
        Triple-bind (begin_tx-Inside env _ (Kept db.promo_codes db.user_operations) (refl, refl))
          λ _.
            Triple-bind_fact
              (reserve_items-Frame env _ (Kept-frame _ _) nil_uuid requests [] env.double.zero)
              λ r s. place_order-Redeems user_id code r.0 r.1

  -- A successful call, by the tables of promo codes and of operations after it.
  pub create-Redeems :
      (minutes : ℤ) (user_id : ℕ) (requests : List OrderItemRequest) (code : Option String)
      (w : World F)
      → Ends w.db
          (λ r w'. Entered w.db user_id r w'.db)
          (create env minutes user_id requests code w)
  unfolding create
  create-Redeems minutes user_id requests code w = (triple w.db).run w (record { same = refl })
    where
      triple :
          (db : Db F)
          → Triple db
              (Outside db)
              (create env minutes user_id requests code)
              (λ r w'. Entered db user_id r w'.db)
      triple db =
          Triple-bind_fact
            (Triple-on_error _
              (Operations.check_rate_limit-Triple env user_id _ minutes (Outside-IsSteady db)))
            λ limit l. Triple-raise_if _ _ (Outside-IsSteady db) λ allowed.
              Triple-bind_fact
                (Triple-on_error _
                  (Orders.get_active_order-Triple env user_id (Outside-IsSteady db)))
                λ active a. Triple-raise_if _ _ (Outside-IsSteady db) λ none_active.
                  Triple-defer_rollback (Entered db user_id)
                    (create_in_tx-Redeems db user_id requests code)
