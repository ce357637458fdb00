-- ===== src/Orders/Conservation.antt =====
-- No unit of a product appears or disappears in orders/service_impl.go: assertions on the tables that
-- an order's transaction sees, and the loops of the service. The children have the operations.
pub mod Loops
pub mod Redeem
pub mod Create
pub mod Cancel
pub mod Update
use soa_hw.Prelude.{Bool, false, if◌then◌else◌, ℕ, List, [], ◌≡◌, ◌≡⟨◌⟩◌, ◌∎, ap, true, ◌∙◌}
use soa_hw.Prelude.Int.{ℤ, pos, ◌+ℤ◌, int_laws}
use soa_hw.Domain.{OrderItem}
use soa_hw.Store.{Db}
use soa_hw.Orders.Inventory.{stock_of, units, is_live, live_units, all_units}
use soa_hw.Orders.Inventory.Statements.{SameUnits}

placed_sum :
    (s l u level base : ℤ) → s +ℤ u ≡ level → l +ℤ pos 0 ≡ base +ℤ u → s +ℤ l ≡ level +ℤ base
placed_sum s l u level base p q =
    s +ℤ l
    ≡⟨ omega int_laws ⟩ s +ℤ (l +ℤ pos 0)
    ≡⟨ ap (λ x. s +ℤ x) q ⟩ s +ℤ (base +ℤ u)
    ≡⟨ omega int_laws ⟩ s +ℤ u +ℤ base
    ≡⟨ ap (λ x. x +ℤ base) p ⟩ level +ℤ base ∎

lost_sum :
    (s l u level base : ℤ)
    → s +ℤ u ≡ level
    → l +ℤ pos 0 ≡ base +ℤ pos 0
    → s +ℤ l +ℤ u ≡ level +ℤ base
lost_sum s l u level base p q =
    s +ℤ l +ℤ u
    ≡⟨ omega int_laws ⟩ s +ℤ u +ℤ (l +ℤ pos 0)
    ≡⟨ (rw (p, q)) ⟩ level +ℤ (base +ℤ pos 0)
    ≡⟨ omega int_laws ⟩ level +ℤ base ∎

module _ {F : Type 0} where
  -- The orders are those of `db`, and `held` are the items whose units have left the stock: with
  -- them the stock of each product is at `level`.
  pub record Holding (db : Db F) (level : ℕ → ℤ) (held : List (OrderItem F)) (d : Db F)
      : Type 0 where
    pub orders : d.orders ≡ db.orders
    pub order_items : d.order_items ≡ db.order_items
    pub stock : (k : ℕ) → stock_of k d.products +ℤ units k held ≡ level k

  -- `all` are the items of the order `order_id`, of which `rest` are still to be inserted; the other
  -- orders hold `base`. The order counts if `counts`, that is, if it is not canceled.
  pub record Placing (counts : Bool) (level base : ℕ → ℤ) (order_id : ℕ)
      (all rest : List (OrderItem F)) (d : Db F) : Type 0 where
    pub live : is_live order_id d.orders ≡ counts
    pub stock : (k : ℕ) → stock_of k d.products +ℤ units k all ≡ level k
    pub held :
        (k : ℕ)
        → live_units k d.orders d.order_items +ℤ (if counts then units k rest else pos 0)
          ≡ base k +ℤ (if counts then units k all else pos 0)

  pub Holding-frame :
      (db : Db F) (level : ℕ → ℤ) (held : List (OrderItem F)) (d d' : Db F)
      → SameUnits d d'
      → Holding db level held d
      → Holding db level held d'
  Holding-frame db level held d d' s h = record {
    orders = s.orders ∙ h.orders;
    order_items = s.order_items ∙ h.order_items;
    stock = λ k. rw s.products (h.stock k);
  }

  pub Placing-frame :
      (counts : Bool) (level base : ℕ → ℤ) (order_id : ℕ) (all rest : List (OrderItem F))
      (d d' : Db F)
      → SameUnits d d'
      → Placing counts level base order_id all rest d
      → Placing counts level base order_id all rest d'
  Placing-frame counts level base order_id all rest d d' s h = record {
    live = rw s.orders h.live;
    stock = λ k. rw s.products (h.stock k);
    held = λ k. rw (s.orders, s.order_items) (h.held k);
  }

  -- Once all items of a live order are inserted, nothing is on its way.
  pub all_units-placed :
      (level base : ℕ → ℤ) (order_id : ℕ) (all : List (OrderItem F)) (d : Db F) (k : ℕ)
      → Placing true level base order_id all [] d
      → all_units k d ≡ level k +ℤ base k
  unfolding all_units units
  all_units-placed level base order_id all d k h = placed_sum _ _ _ _ _ (h.stock k) (h.held k)

  -- The items of a canceled order are not counted.
  pub all_units-placed_canceled :
      (level base : ℕ → ℤ) (order_id : ℕ) (all : List (OrderItem F)) (d : Db F) (k : ℕ)
      → Placing false level base order_id all [] d
      → all_units k d +ℤ units k all ≡ level k +ℤ base k
  unfolding all_units
  all_units-placed_canceled level base order_id all d k h =
      lost_sum _ _ _ _ _ (h.stock k) (h.held k)
