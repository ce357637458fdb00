-- ===== src/Orders/Service.antt =====
-- internal/orders/service_impl.go. The repositories are those that cmd/server/main.go gives to
-- NewService. Reads inside a transaction go to the pool, as in the source, and so see the committed
-- tables.
use soa_hw.Prelude.{
  ℕ, Bool, not, Option, none, some, List, [], ◌∷◌, ◌++◌, String, str_eq, ◌==◌, map, if◌then◌else◌,
}
use soa_hw.Prelude.Int.{ℤ, ltb_ℤ, neg_int64}
use soa_hw.Domain.{Order, OrderItem, OrderWithItems, is_product_active, operation_create_order}
use soa_hw.Domain.Status.{OrderStatus, created, canceled, can_transition_to}
use soa_hw.Domain.Status
use soa_hw.Domain.Promo.{is_valid, calculate_discount}
use soa_hw.Store.{Env}
use soa_hw.Store.Action.{
  wrap, failed_to_check_rate_limit, rate_limit_exceeded, failed_to_check_active_orders,
  user_already_has_an_active_order, failed_to_begin_transaction, product_not_found,
  product_is_not_active, insufficient_stock_for_product, failed_to_reserve_stock,
  promo_code_not_found, promo_code_is_invalid, order_amount_below_minimum,
  failed_to_increment_promo_uses, failed_to_create_order, failed_to_create_order_item,
  failed_to_record_operation, failed_to_commit_transaction, order_not_found, unauthorized,
  failed_to_get_existing_items, failed_to_get_order_items, failed_to_restore_stock,
  failed_to_update_order, failed_to_delete_old_items, order_cannot_be_canceled,
  failed_to_decrement_promo_uses, Action, the_tx, begin_tx, commit, defer_rollback, on_error, pure,
  raise_if, time_now, uuid_new, ◌>>=◌, ◌>>◌,
}
use soa_hw.Products.Repository as Products
use soa_hw.Promos.Repository as Promos
use soa_hw.Operations.Repository as Operations
use soa_hw.Orders.Repository as Orders

pub record OrderItemRequest : Type 0 where
  pub product_id : ℕ
  pub quantity : ℤ

-- The zero value of uuid.UUID.
abbrev pub nil_uuid : ℕ
nil_uuid = 0

-- `string(status)`
abbrev pub status_text : OrderStatus → String
status_text Status.created = "CREATED"
status_text Status.payment_pending = "PAYMENT_PENDING"
status_text Status.paid = "PAID"
status_text Status.shipped = "SHIPPED"
status_text Status.completed = "COMPLETED"
status_text Status.canceled = "CANCELED"
status_text (Status.other s) = s

module _ {F : Type 0} where
  abbrev pub set_order_id : ℕ → OrderItem F → OrderItem F
  set_order_id order_id i = record i { order_id = order_id }

  module _ (env : Env F) where
    -- The loop over the requested items: check, reserve, and collect the order's items and total.
    unfoldable pub reserve_items :
        ℕ → List OrderItemRequest → List (OrderItem F) → F → Action F (List (OrderItem F) × F)
    reserve_items order_id [] order_items total = pure (order_items, total)
    reserve_items order_id (item ∷ items) order_items total = do
      product ← on_error (wrap product_not_found) (Products.get_by_id env item.product_id)
      raise_if (not (is_product_active product.status)) (product_is_not_active item.product_id)
      raise_if (ltb_ℤ product.stock item.quantity) (insufficient_stock_for_product item.product_id)
      on_error (wrap failed_to_reserve_stock)
          (Products.update_stock env the_tx item.product_id (neg_int64 item.quantity))
      id ← uuid_new env
      reserve_items order_id items
          (order_items
            ++ record {
              id = id;
              order_id = order_id;
              product_id = item.product_id;
              quantity = item.quantity;
              price_at_order = product.price;
            }
              ∷ [])
          (env.double.add total (env.double.mul product.price (env.double.of_int item.quantity)))

    -- The promo code's part of `Create`: the discount and the code's identifier.
    unfoldable pub apply_code : String → F → Action F (F × Option ℕ)
    apply_code code total = do
      promo ← on_error (wrap promo_code_not_found) (Promos.get_by_code env code)
      now ← time_now env
      raise_if (not (is_valid promo now)) promo_code_is_invalid
      raise_if (env.double.ltb total promo.min_order_amount) order_amount_below_minimum
      on_error (wrap failed_to_increment_promo_uses) (Promos.increment_uses env the_tx promo.id)
      pure (calculate_discount env.double promo total, some promo.id)

    unfoldable pub apply_promo : Option String → F → Action F (F × Option ℕ)
    unfolding apply_code
    apply_promo none total = pure (env.double.zero, none)
    apply_promo (some code) total =
        if str_eq code "" then pure (env.double.zero, none) else apply_code code total

    unfoldable pub create_items : List (OrderItem F) → Action F (Unit {0})
    create_items [] = pure tt
    create_items (item ∷ items) = do
      on_error (wrap failed_to_create_order_item) (Orders.create_item env the_tx item)
      create_items items

    unfoldable pub restore_stock : List (OrderItem F) → Action F (Unit {0})
    restore_stock [] = pure tt
    restore_stock (item ∷ items) = do
      on_error (wrap failed_to_restore_stock)
          (Products.update_stock env the_tx item.product_id item.quantity)
      restore_stock items

    -- `Create` from the end of its first loop to the commit.
    unfoldable pub place_order :
        ℕ → Option String → List (OrderItem F) → F → Action F (OrderWithItems F)
    place_order user_id promo_code order_items total = do
      applied ← apply_promo promo_code total
      id ← uuid_new env
      created_at ← time_now env
      updated_at ← time_now env
      let order : Order F = record {
        id = id;
        user_id = user_id;
        status = created;
        promo_code_id = applied.1;
        total_amount = env.double.sub total applied.0;
        discount_amount = applied.0;
        created_at = created_at;
        updated_at = updated_at;
      }
      let placed : List (OrderItem F) = map (set_order_id id) order_items
      on_error (wrap failed_to_create_order) (Orders.create env the_tx order)
      create_items placed
      operation_id ← uuid_new env
      operation_time ← time_now env
      on_error (wrap failed_to_record_operation) (
          Operations.create env the_tx record {
            id = operation_id;
            user_id = user_id;
            operation_type = operation_create_order;
            created_at = operation_time;
          })
      on_error (wrap failed_to_commit_transaction) (commit env)
      pure (record { order = order; items = placed })

    -- `Create` from BeginTx on.
    unfoldable pub create_in_tx :
        ℕ → List OrderItemRequest → Option String → Action F (OrderWithItems F)
    create_in_tx user_id items promo_code = do
      on_error (wrap failed_to_begin_transaction) (begin_tx env)
      reserved ← reserve_items nil_uuid items [] env.double.zero
      place_order user_id promo_code reserved.0 reserved.1

    abbrev pub is_some : Option (Order F) → Bool
    is_some none = Bool.false
    is_some (some o) = Bool.true

    unfoldable pub create :
        ℤ → ℕ → List OrderItemRequest → Option String → Action F (OrderWithItems F)
    create rate_limit_minutes user_id items promo_code = do
      limit ←
          on_error (wrap failed_to_check_rate_limit)
            (Operations.check_rate_limit env user_id operation_create_order rate_limit_minutes)
      raise_if (not limit.0) (rate_limit_exceeded limit.1)
      active ←
          on_error (wrap failed_to_check_active_orders)
            (Orders.get_active_order_by_user_id env user_id)
      raise_if (is_some active) user_already_has_an_active_order
      defer_rollback (create_in_tx user_id items promo_code)

    unfoldable pub get_by_id : ℕ → Action F (OrderWithItems F)
    get_by_id id = do
      order ← Orders.get_by_id env id
      items ← Orders.get_items_by_order_id env id
      pure (record { order = order; items = items })

    -- `Update` from the end of its last loop over products to the commit.
    unfoldable pub replace_order :
        ℕ → Order F → List (OrderItem F) → F → Action F (OrderWithItems F)
    replace_order order_id existing order_items total = do
      updated_at ← time_now env
      let changed : Order F = record existing { total_amount = total; updated_at = updated_at }
      on_error (wrap failed_to_update_order) (Orders.update env the_tx changed)
      on_error (wrap failed_to_delete_old_items)
          (Orders.delete_items_by_order_id env the_tx order_id)
      create_items order_items
      on_error (wrap failed_to_commit_transaction) (commit env)
      pure (record { order = changed; items = order_items })

    -- `Update` from BeginTx on.
    unfoldable pub update_in_tx : ℕ → Order F → List OrderItemRequest → Action F (OrderWithItems F)
    update_in_tx order_id existing items = do
      on_error (wrap failed_to_begin_transaction) (begin_tx env)
      existing_items ←
          on_error (wrap failed_to_get_existing_items) (Orders.get_items_by_order_id env order_id)
      restore_stock existing_items
      reserved ← reserve_items order_id items [] env.double.zero
      replace_order order_id existing reserved.0 reserved.1

    unfoldable pub update : ℕ → ℕ → List OrderItemRequest → Action F (OrderWithItems F)
    update order_id user_id items = do
      existing ← on_error (wrap order_not_found) (Orders.get_by_id env order_id)
      raise_if (not (existing.user_id == user_id)) unauthorized
      defer_rollback (update_in_tx order_id existing items)

    unfoldable pub release_promo : Option ℕ → Action F (Unit {0})
    release_promo none = pure tt
    release_promo (some id) =
        on_error (wrap failed_to_decrement_promo_uses) (Promos.decrement_uses env the_tx id)

    -- `Cancel` from BeginTx on.
    unfoldable pub cancel_in_tx : ℕ → Order F → Action F (OrderWithItems F)
    unfolding release_promo
    cancel_in_tx order_id existing = do
      on_error (wrap failed_to_begin_transaction) (begin_tx env)
      items ← on_error (wrap failed_to_get_order_items) (Orders.get_items_by_order_id env order_id)
      restore_stock items
      release_promo existing.promo_code_id
      updated_at ← time_now env
      let changed : Order F = record existing { status = canceled; updated_at = updated_at }
      on_error (wrap failed_to_update_order) (Orders.update env the_tx changed)
      on_error (wrap failed_to_commit_transaction) (commit env)
      pure (record { order = changed; items = items })

    unfoldable pub cancel : ℕ → ℕ → Action F (OrderWithItems F)
    cancel order_id user_id = do
      existing ← on_error (wrap order_not_found) (Orders.get_by_id env order_id)
      raise_if (not (existing.user_id == user_id)) unauthorized
      raise_if (not (can_transition_to existing.status canceled))
          (order_cannot_be_canceled (status_text existing.status))
      defer_rollback (cancel_in_tx order_id existing)
