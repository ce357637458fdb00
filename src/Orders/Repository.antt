-- ===== src/Orders/Repository.antt =====
-- internal/orders/repository_impl.go: each query as a statement on the tables, and the methods that
-- run them.
use soa_hw.Prelude.{
  ℕ, Bool, ◌&&◌, ◌||◌, Option, none, some, List, [], ◌∷◌, ◌++◌, ◌==◌, find, select, delete_where,
  update_where, if◌then◌else◌,
}
use soa_hw.Domain.{Order, OrderItem}
use soa_hw.Domain.Status.{created, payment_pending, status_eq}
use soa_hw.Store.{Env, Db}
use soa_hw.Store.Schema.{order_row, order_item_row, fresh_id}
use soa_hw.Store.Action.{
  Result, ok, err, violation, wrap, failed_to_create_order, failed_to_get_order,
  failed_to_update_order, failed_to_get_active_order, failed_to_create_order_item,
  failed_to_get_order_items, failed_to_delete_order_items, order_missing, Action, Sql, Handle,
  nil_tx, exec, on_error, or_raise, ◌>>=◌,
}

module _ {F : Type 0} where
  abbrev pub has_id : ℕ → Order F → Bool
  has_id id o = o.id == id

  abbrev pub belongs : ℕ → OrderItem F → Bool
  belongs order_id i = i.order_id == order_id

  -- `user_id = $1 AND status IN ($2, $3)`
  abbrev pub is_active : ℕ → Order F → Bool
  is_active user_id o =
      o.user_id == user_id && (status_eq o.status created || status_eq o.status payment_pending)

  -- The columns that `Update` sets; the trigger sets `updated_at` to the statement's time.
  abbrev pub overwrite : Order F → F → F → ℕ → Order F → Order F
  overwrite new total discount n o = record o {
    status = new.status;
    promo_code_id = new.promo_code_id;
    total_amount = total;
    discount_amount = discount;
    updated_at = n;
  }

  unfoldable pub select_order : ℕ → Sql F (Option (Order F))
  select_order id n db = ok (find (has_id id) db.orders, db)

  unfoldable pub select_active_order : ℕ → Sql F (Option (Order F))
  select_active_order user_id n db = ok (find (is_active user_id) db.orders, db)

  unfoldable pub select_items : ℕ → Sql F (List (OrderItem F))
  select_items order_id n db = ok (select (belongs order_id) db.order_items, db)

  unfoldable pub delete_items : ℕ → Sql F (Unit {0})
  delete_items order_id n db =
      ok (tt, record db { order_items = delete_where (belongs order_id) db.order_items })

  -- Both amounts of an order as their columns hold them; a refused amount is an error.
  unfoldable pub with_amounts :
      {A : Type 0} → Option F → Option F → (F → F → Result (A × Db F)) → Result (A × Db F)
  with_amounts (some a) (some b) f = f a b
  with_amounts _ _ f = err violation

  module _ (env : Env F) where
    unfoldable pub put_order : Order F → Db F → Result (Unit {0} × Db F)
    put_order row db =
        if order_row env db row && fresh_id (λ (o : Order F). o.id) row db.orders
        then ok (tt, record db { orders = db.orders ++ row ∷ [] })
        else err violation

    unfoldable pub insert_order : Order F → Sql F (Unit {0})
    unfolding put_order with_amounts
    insert_order o n db =
        with_amounts (env.numeric o.total_amount) (env.numeric o.discount_amount) λ total discount.
          put_order
            (record o {
              total_amount = total;
              discount_amount = discount;
              created_at = env.timestamp o.created_at;
              updated_at = env.timestamp o.updated_at;
            })
            db

    unfoldable pub change_order : ℕ → (Order F → Order F) → Db F → Result (Option (Order F) × Db F)
    change_order id f db = elim (find (has_id id) db.orders) [
      | none ↦ ok (none, db)
      | some o ↦
          if order_row env db (f o)
          then ok (some (f o), record db { orders = update_where (has_id id) f db.orders })
          else err violation
    ]

    -- The changed row, if there is one.
    unfoldable pub update_order : Order F → Sql F (Option (Order F))
    unfolding change_order with_amounts
    update_order o n db =
        with_amounts (env.numeric o.total_amount) (env.numeric o.discount_amount)
          λ total discount. change_order o.id (overwrite o total discount n) db

    unfoldable pub put_item : OrderItem F → Db F → Result (Unit {0} × Db F)
    put_item row db =
        if order_item_row env db row && fresh_id (λ (i : OrderItem F). i.id) row db.order_items
        then ok (tt, record db { order_items = db.order_items ++ row ∷ [] })
        else err violation

    unfoldable pub insert_item : OrderItem F → Sql F (Unit {0})
    unfolding put_item
    insert_item i n db = elim (env.numeric i.price_at_order) [
      | none ↦ err violation
      | some price ↦ put_item (record i { price_at_order = price }) db
    ]

    unfoldable pub create : Handle → Order F → Action F (Unit {0})
    create tx o = on_error (wrap failed_to_create_order) (exec env tx (insert_order o))

    unfoldable pub get_by_id : ℕ → Action F (Order F)
    get_by_id id = do
      found ← on_error (wrap failed_to_get_order) (exec env nil_tx (select_order id))
      or_raise found order_missing

    unfoldable pub update : Handle → Order F → Action F (Order F)
    update tx o = do
      rows ← on_error (wrap failed_to_update_order) (exec env tx (update_order o))
      or_raise rows order_missing

    unfoldable pub get_active_order_by_user_id : ℕ → Action F (Option (Order F))
    get_active_order_by_user_id user_id =
        on_error (wrap failed_to_get_active_order) (exec env nil_tx (select_active_order user_id))

    unfoldable pub create_item : Handle → OrderItem F → Action F (Unit {0})
    create_item tx i = on_error (wrap failed_to_create_order_item) (exec env tx (insert_item i))

    unfoldable pub get_items_by_order_id : ℕ → Action F (List (OrderItem F))
    get_items_by_order_id order_id =
        on_error (wrap failed_to_get_order_items) (exec env nil_tx (select_items order_id))

    unfoldable pub delete_items_by_order_id : Handle → ℕ → Action F (Unit {0})
    delete_items_by_order_id tx order_id =
        on_error (wrap failed_to_delete_order_items) (exec env tx (delete_items order_id))
