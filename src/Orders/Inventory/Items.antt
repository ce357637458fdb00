-- ===== src/Orders/Inventory/Items.antt =====
-- How the statements on orders and their items move the units that orders hold.
use soa_hw.Prelude.{
  ==_iff, ℕ, ◌≡◌, refl, true, false, not, some, List, [], ◌∷◌, ◌++◌, ◌==◌, find, any, select,
  delete_where, update_where, All, arith, find-append_other, find-append_none,
}
use soa_hw.Prelude.Int.{◌+ℤ◌, int_laws}
use soa_hw.Domain.{Order, OrderItem}
use soa_hw.Domain.Status.{created, canceled, status_eq}
use soa_hw.Orders.Repository.{has_id, belongs, overwrite}
use soa_hw.Orders.Inventory.{units, live_units, is_live, HasOrder}

module _ {F : Type 0} where
  pub units-append :
      (k : ℕ) (xs ys : List (OrderItem F)) → units k (xs ++ ys) ≡ units k xs +ℤ units k ys
  unfolding units
  units-append k [] ys = omega int_laws
  units-append k (x ∷ xs) ys = rw (units-append k xs ys) (omega int_laws)

  pub live_units-append :
      (k : ℕ) (orders : List (Order F)) (xs ys : List (OrderItem F))
      → live_units k orders (xs ++ ys) ≡ live_units k orders xs +ℤ live_units k orders ys
  unfolding live_units
  live_units-append k orders [] ys = omega int_laws
  live_units-append k orders (x ∷ xs) ys = rw (live_units-append k orders xs ys) (omega int_laws)

  has_other_order :
      (a b : ℕ) (orders : List (Order F))
      → any (has_id a) orders ≡ true
      → any (has_id b) orders ≡ false
      → (b == a) ≡ false
  has_other_order a b [] h g = cc
  has_other_order a b (o ∷ orders) h g = ground (arith, has_other_order a b orders)

  -- A new order takes no units from the items that are there.
  pub live_units-new_order :
      (k : ℕ) (orders : List (Order F)) (o : Order F) (items : List (OrderItem F))
      → any (has_id o.id) orders ≡ false
      → All (HasOrder orders) items
      → live_units k (orders ++ o ∷ []) items ≡ live_units k orders items
  unfolding live_units is_live
  live_units-new_order k orders o [] fresh h = refl
  live_units-new_order k orders o (i ∷ items) fresh h =
      rw
        (
          find-append_other (has_id i.order_id) orders o
              (has_other_order i.order_id o.id orders h.0 fresh),
          live_units-new_order k orders o items fresh h.1,
        )
        refl

  -- Of the items of a live order, and of the others.
  pub live_units-delete :
      (k id : ℕ) (orders : List (Order F)) (items : List (OrderItem F))
      → is_live id orders ≡ true
      → live_units k orders items
        ≡ live_units k orders (delete_where (belongs id) items)
          +ℤ units k (select (belongs id) items)
  unfolding live_units units
  live_units-delete k id orders [] h = omega int_laws
  live_units-delete k id orders (i ∷ items) h =
      grind (int_laws, ==_iff i.order_id id, live_units-delete k id orders items h)

  -- The items of an order that is not live do not count.
  pub live_units-delete_dead :
      (k id : ℕ) (orders : List (Order F)) (items : List (OrderItem F))
      → is_live id orders ≡ false
      → live_units k orders (delete_where (belongs id) items) ≡ live_units k orders items
  unfolding live_units
  live_units-delete_dead k id orders [] h = refl
  live_units-delete_dead k id orders (i ∷ items) h =
      grind (int_laws, ==_iff i.order_id id, live_units-delete_dead k id orders items h)

  -- The orders differ, but not in which are live.
  pub live_units_cong :
      (k : ℕ) (orders orders' : List (Order F)) (items : List (OrderItem F))
      → ((id : ℕ) → is_live id orders' ≡ is_live id orders)
      → live_units k orders' items ≡ live_units k orders items
  unfolding live_units
  live_units_cong k orders orders' [] h = refl
  live_units_cong k orders orders' (i ∷ items) h =
      rw (h i.order_id, live_units_cong k orders orders' items h)

  -- Only the order `id` has changed, and it is canceled now.
  pub live_units-cancel :
      (k id : ℕ) (orders orders' : List (Order F)) (items : List (OrderItem F))
      → is_live id orders' ≡ false
      → ((j : ℕ) → (j == id) ≡ false → is_live j orders' ≡ is_live j orders)
      → live_units k orders' items ≡ live_units k orders (delete_where (belongs id) items)
  unfolding live_units
  live_units-cancel k id orders orders' [] h g = refl
  live_units-cancel k id orders orders' (i ∷ items) h g = grind (
    int_laws,
    ==_iff i.order_id id,
    g i.order_id,
    live_units-cancel k id orders orders' items h g,
  )

  -- A new order is live once it is in the table.
  pub is_live-new_order :
      (id : ℕ) (orders : List (Order F)) (row : Order F)
      → row.id ≡ id
      → row.status ≡ created
      → any (has_id id) orders ≡ false
      → is_live id (orders ++ row ∷ []) ≡ true
  unfolding is_live status_eq
  is_live-new_order id orders row e s fresh =
      rw (find-append_none (has_id id) orders row fresh) (ground arith)

  -- Overwriting one order decides whether that one is live, and no other.
  pub is_live-overwrite_other :
      (j id : ℕ) (new : Order F) (total discount : F) (n : ℕ) (orders : List (Order F))
      → (j == id) ≡ false
      → is_live j (update_where (has_id id) (overwrite new total discount n) orders)
        ≡ is_live j orders
  unfolding is_live
  is_live-overwrite_other j id new total discount n [] h = refl
  is_live-overwrite_other j id new total discount n (o ∷ orders) h =
      ground (arith, is_live-overwrite_other j id new total discount n orders h)

  pub is_live-overwrite_self :
      (id : ℕ) (new : Order F) (total discount : F) (n : ℕ) (orders : List (Order F)) (o : Order F)
      → find (has_id id) orders ≡ some o
      → is_live id (update_where (has_id id) (overwrite new total discount n) orders)
        ≡ not (status_eq new.status canceled)
  unfolding is_live
  is_live-overwrite_self id new total discount n [] o h = cc
  is_live-overwrite_self id new total discount n (x ∷ orders) o h =
      ground (arith, is_live-overwrite_self id new total discount n orders o)
