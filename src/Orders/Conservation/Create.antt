-- ===== src/Orders/Conservation/Create.antt =====
-- The units of a product through `Create` of orders/service_impl.go.
use soa_hw.Prelude.{ℕ, ◌≡◌, refl, ap, ◌∙◌, true, Option, List, [], ◌∷◌, All, map, String}
use soa_hw.Prelude.Int.{ℤ, ◌+ℤ◌, int_laws}
use soa_hw.Domain.{Order, OrderItem}
use soa_hw.Domain.Status.{created}
use soa_hw.Store.{Env, Db, World}
use soa_hw.Store.Outcome.{
  Ends, Triple, Outside, Inside, Inside-map, Inside-IsSteady, Outside-IsSteady, Triple-bind,
  Triple-bind_fact, Triple-on_error, Triple-pure, Triple-weaken, Triple-raise_if, Triple-uuid_new,
  Triple-time_now, Triple-defer_rollback,
}
use soa_hw.Store.Statements.{Triple-begin_tx, Triple-commit}
use soa_hw.Operations.Contract as Operations
use soa_hw.Orders.Contract as Orders
use soa_hw.Orders.Inventory.{stock_of, units, live_units, all_units, SameTotals, HasOrder}
use soa_hw.Orders.Inventory.Items.{live_units-new_order, is_live-new_order}
use soa_hw.Orders.Inventory.Statements.{
  AddedOrder, insert_order-AddedOrder, insert_operation-SameUnits,
}
use soa_hw.Orders.Service.{
  OrderItemRequest, set_order_id, nil_uuid, place_order, create_in_tx, create,
}
use soa_hw.Orders.Conservation.{Holding, Placing, Holding-frame, Placing-frame, all_units-placed}
use soa_hw.Orders.Conservation.Loops.{InOrder, reserve_items-Triple, create_items-Triple}
use soa_hw.Orders.Conservation.Redeem.{apply_promo-Triple}

module _ {F : Type 0} where
  units-set_order_id :
      (k id : ℕ) (items : List (OrderItem F))
      → units k (map (set_order_id id) items) ≡ units k items
  unfolding units
  units-set_order_id k id [] = refl
  units-set_order_id k id (i ∷ items) = rw (units-set_order_id k id items)

  pub InOrder-set_order_id :
      (id : ℕ) (items : List (OrderItem F)) → All (InOrder id) (map (set_order_id id) items)
  InOrder-set_order_id id [] = tt
  InOrder-set_order_id id (i ∷ items) = (refl, InOrder-set_order_id id items)

  module _ (db : Db F) (level : ℕ → ℤ) (referred : All (HasOrder db.orders) db.order_items) where
    held_new :
        (k : ℕ) (o : Order F) (d d' : Db F)
        → d.orders ≡ db.orders
        → d.order_items ≡ db.order_items
        → AddedOrder o d d'
        → live_units k d'.orders d'.order_items ≡ live_units k db.orders db.order_items
    held_new k o d d' e f a =
        rw (a.orders, a.order_items, e, f)
          (live_units-new_order k db.orders a.row db.order_items (rw (a.same_id, ← e) a.fresh)
            referred)

    place_new :
        (o : Order F) (items : List (OrderItem F)) (d d' : Db F)
        → o.status ≡ created
        → Holding db level items d
        → AddedOrder o d d'
        → Placing true level
            (λ k. live_units k db.orders db.order_items)
            o.id
            (map (set_order_id o.id) items)
            (map (set_order_id o.id) items)
            d'
    place_new o items d d' s h a = record {
      live =
          rw a.orders (is_live-new_order o.id d.orders a.row a.same_id (a.same_status ∙ s) a.fresh);
      stock = λ k. rw (a.products, units-set_order_id k o.id items) (h.stock k);
      held = λ k.
          ap (λ x. x +ℤ units k (map (set_order_id o.id) items))
            (held_new k o d d' h.orders h.order_items a);
    }

  placed-SameTotals :
      (db : Db F) (order_id : ℕ) (all : List (OrderItem F)) (d : Db F)
      → Placing true
          (λ k. stock_of k db.products)
          (λ k. live_units k db.orders db.order_items)
          order_id
          all
          []
          d
      → SameTotals db d
  placed-SameTotals db order_id all d h k =
      all_units-placed _ _ order_id all d k h ∙ unfold all_units in refl

module _ {F : Type 0} (env : Env F) (db : Db F) where
  module _ (referred : All (HasOrder db.orders) db.order_items) where
    place_order-Triple :
        (user_id : ℕ) (code : Option String) (items : List (OrderItem F)) (total : F)
        → Triple db
            (Inside db (Holding db (λ k. stock_of k db.products) items))
            (place_order env user_id code items total)
            (λ _ w. SameTotals db w.db)
    unfolding place_order
    place_order-Triple user_id code items total =
        Triple-bind_fact
          (apply_promo-Triple env _ (λ d d'. Holding-frame db _ items d d') code total)
          λ applied a. Triple-uuid_new env (Inside-IsSteady db _) λ id.
            Triple-time_now env (Inside-IsSteady db _) λ created_at.
              Triple-time_now env (Inside-IsSteady db _) λ updated_at.
                Triple-bind
                  (Triple-on_error _ (
                    Orders.create-Triple env _ _ _ (λ n d d' h e.
                      place_new db (λ k. stock_of k db.products) referred _ items d d' refl h
                        (insert_order-AddedOrder env _ n d d' e))))
                  λ _.
                    Triple-bind
                      (create_items-Triple env _ true _ id _ _ (InOrder-set_order_id id items))
                      λ _. Triple-uuid_new env (Inside-IsSteady db _) λ operation_id.
                        Triple-time_now env (Inside-IsSteady db _) λ operation_time.
                          Triple-bind
                            (Triple-on_error _ (
                              Operations.create-Triple env _ _ _ (λ n d d' h e.
                                Placing-frame true _ _ id _ _ d d'
                                  (insert_operation-SameUnits env _ n d d' e) h)))
                            λ _.
                              Triple-bind
                                (Triple-on_error _ (
                                  Triple-weaken (Triple-commit env _) (λ w p. p)
                                    (λ _ w h. placed-SameTotals db id _ w.db h)))
                                λ _. Triple-pure _

    create_in_tx-Triple :
        (user_id : ℕ) (items : List OrderItemRequest) (code : Option String)
        → Triple db (Outside db) (create_in_tx env user_id items code) (λ _ w. SameTotals db w.db)
    unfolding create_in_tx
    create_in_tx-Triple user_id items code =
        Triple-bind (Triple-on_error _ (Triple-begin_tx env)) λ _.
          Triple-bind
            (Triple-weaken
              (reserve_items-Triple env (λ k. stock_of k db.products) nil_uuid items [] _ tt)
              (λ w. Inside-map (λ d e. start d e)) (λ r w p. p))
            λ r.
              Triple-weaken (place_order-Triple user_id code r.0 r.1) (λ w. Inside-map (λ d p. p.0))
                (λ a w p. p)
      where
        start : (d : Db F) → d ≡ db → Holding db (λ k. stock_of k db.products) [] d
        start d e = record {
          orders = ap (λ (x : Db F). x.orders) e;
          order_items = ap (λ (x : Db F). x.order_items) e;
          stock = λ k. rw e (unfold units in omega int_laws);
        }

    -- The triple of `Create`.
    pub create-Triple :
        (minutes : ℤ) (user_id : ℕ) (items : List OrderItemRequest) (code : Option String)
        → Triple db (Outside db) (create env minutes user_id items code) (λ _ w. SameTotals db w.db)
    unfolding create
    create-Triple minutes user_id items code =
        Triple-bind_fact
          (Triple-on_error _
            (Operations.check_rate_limit-Triple env user_id _ minutes (Outside-IsSteady db)))
          λ limit l. Triple-raise_if _ _ (Outside-IsSteady db) λ allowed.
            Triple-bind_fact
              (Triple-on_error _ (Orders.get_active_order-Triple env user_id (Outside-IsSteady db)))
              λ active a. Triple-raise_if _ _ (Outside-IsSteady db) λ none_active.
                Triple-defer_rollback (λ _. SameTotals db) (create_in_tx-Triple user_id items code)

-- `Create` either succeeds, and then the units of every product, in stock or in orders that are not
-- canceled, are as many as before, or it fails, and then the committed tables are as before. This
-- holds whatever fails on the way, if every order item refers to an order.
pub create_conserves :
    {F : Type 0} (env : Env F) (minutes : ℤ) (user_id : ℕ) (items : List OrderItemRequest)
    (code : Option String) (w : World F)
    → All (HasOrder w.db.orders) w.db.order_items
    → Ends w.db (λ _ w'. SameTotals w.db w'.db) (create env minutes user_id items code w)
create_conserves env minutes user_id items code w referred =
    (create-Triple env w.db referred minutes user_id items code).run w (record { same = refl })
