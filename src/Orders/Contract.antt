-- ===== src/Orders/Contract.antt =====
-- What the methods of the orders repository promise to their callers.
use soa_hw.Prelude.{ℕ, ◌≡◌, refl, ◌∙◌, some, find, select}
use soa_hw.Domain.{Order, OrderItem}
use soa_hw.Store.{Env, Db, World}
use soa_hw.Store.Action.{ok, the_tx}
use soa_hw.Store.Outcome.{
  Triple, Inside, Inside-map, Inside-IsSteady, IsSteady, Returns, Triple-bind, Triple-bind_fact,
  Triple-on_error, Triple-or_raise_last, Triple-weaken,
}
use soa_hw.Store.Statements.{Triple-exec_select, Triple-exec_write}
use soa_hw.Orders.Repository.{
  has_id, belongs, is_active, select_order, select_active_order, select_items, delete_items,
  insert_order, update_order, insert_item, create, get_by_id, update, get_active_order_by_user_id,
  create_item, get_items_by_order_id, delete_items_by_order_id,
}

module _ {F : Type 0} (env : Env F) {db : Db F} where
  module _ {P : World F → Type 0} where
    -- The reads return what is committed.
    pub get_by_id-Triple :
        (id : ℕ)
        → IsSteady db P
        → Triple db P (get_by_id env id) (Returns P (λ o. find (has_id id) db.orders ≡ some o))
    unfolding get_by_id select_order
    get_by_id-Triple id steady =
        Triple-bind_fact
          (Triple-on_error _ (Triple-exec_select env (select_order id) _ steady (λ n. refl)))
          λ found e.
            Triple-weaken (Triple-or_raise_last found _ steady) (λ w p. p) (λ a w r. (r.0, e ∙ r.1))

    pub get_active_order-Triple :
        (user_id : ℕ)
        → IsSteady db P
        → Triple db P
            (get_active_order_by_user_id env user_id)
            (Returns P (λ o. find (is_active user_id) db.orders ≡ o))
    unfolding get_active_order_by_user_id select_active_order
    get_active_order-Triple user_id steady =
        Triple-on_error _
          (Triple-exec_select env (select_active_order user_id) _ steady (λ n. refl))

    pub get_items-Triple :
        (order_id : ℕ)
        → IsSteady db P
        → Triple db P
            (get_items_by_order_id env order_id)
            (Returns P (λ items. select (belongs order_id) db.order_items ≡ items))
    unfolding get_items_by_order_id select_items
    get_items-Triple order_id steady =
        Triple-on_error _ (Triple-exec_select env (select_items order_id) _ steady (λ n. refl))

  -- The writes in a transaction, by what their statements do to the tables.
  pub create-Triple :
      (o : Order F) (P Q : Db F → Type 0)
      → ((n : ℕ) (d d' : Db F) → P d → insert_order env o n d ≡ ok (tt, d') → Q d')
      → Triple db (Inside db P) (create env the_tx o) (λ _. Inside db Q)
  unfolding create
  create-Triple o P Q h =
      Triple-on_error _
        (Triple-exec_write env (insert_order env o) P (λ _. Q) (λ n u d d' p e. h n d d' p e))

  pub create_item-Triple :
      (i : OrderItem F) (P Q : Db F → Type 0)
      → ((n : ℕ) (d d' : Db F) → P d → insert_item env i n d ≡ ok (tt, d') → Q d')
      → Triple db (Inside db P) (create_item env the_tx i) (λ _. Inside db Q)
  unfolding create_item
  create_item-Triple i P Q h =
      Triple-on_error _
        (Triple-exec_write env (insert_item env i) P (λ _. Q) (λ n u d d' p e. h n d d' p e))

  pub delete_items-Triple :
      (order_id : ℕ) (P Q : Db F → Type 0)
      → ((n : ℕ) (d d' : Db F) → P d → delete_items order_id n d ≡ ok (tt, d') → Q d')
      → Triple db (Inside db P) (delete_items_by_order_id env the_tx order_id) (λ _. Inside db Q)
  unfolding delete_items_by_order_id
  delete_items-Triple order_id P Q h =
      Triple-on_error _
        (Triple-exec_write env (delete_items order_id) P (λ _. Q) (λ n u d d' p e. h n d d' p e))

  pub update-Triple :
      (o : Order F) (P Q : Db F → Type 0)
      → ((n : ℕ) (row : Order F) (d d' : Db F)
          → P d
          → update_order env o n d ≡ ok (some row, d')
          → Q d')
      → Triple db (Inside db P) (update env the_tx o) (λ _. Inside db Q)
  unfolding update
  update-Triple o P Q h =
      Triple-bind
        (Triple-on_error _ (
          Triple-exec_write env (update_order env o) P
            (λ found d. (row : Order F) → found ≡ some row → Q d)
            (λ n found d d' p e q same. h n q d d' p cc)))
        λ found.
          Triple-weaken (Triple-or_raise_last found _ (Inside-IsSteady db _)) (λ w p. p)
            (λ row w r. Inside-map (λ d k. k row r.1) r.0)
