-- ===== src/Orders/Inventory/Stock.antt =====
-- How the statements on products move stock.
use native.Mathlib.Decide.{ℕ_discrete}
use soa_hw.Prelude.{
  ◌≢◌, ==_refl, inl, inr, Option-cases, ℕ, ◌≡◌, refl, some, List, [], ◌∷◌, ◌==◌, find, update_where,
  arith, if◌then◌else◌,
}
use soa_hw.Prelude.Int.{ℤ, pos, ◌+ℤ◌, int_laws}
use soa_hw.Domain.{Product}
use soa_hw.Store.{Env, Db}
use soa_hw.Store.Action.{ok}
use soa_hw.Products.Repository.{has_id, restock, add_stock}
use soa_hw.Orders.Inventory.{stock_of}

module _ {F : Type 0} where
  stock_of-restock_other :
      (id k : ℕ) (delta : ℤ) (n : ℕ) (rows : List (Product F))
      → id ≢ k
      → stock_of k (update_where (has_id id) (restock delta n) rows) ≡ stock_of k rows
  unfolding stock_of
  stock_of-restock_other id k delta n [] h = refl
  stock_of-restock_other id k delta n (r ∷ rows) h =
      ground (arith, stock_of-restock_other id k delta n rows h)

  stock_of-restock_self :
      (id : ℕ) (delta : ℤ) (n : ℕ) (rows : List (Product F)) (p : Product F)
      → find (has_id id) rows ≡ some p
      → stock_of id (update_where (has_id id) (restock delta n) rows) ≡ stock_of id rows +ℤ delta
  unfolding stock_of
  stock_of-restock_self id delta n [] p h = cc
  stock_of-restock_self id delta n (r ∷ rows) p h =
      ground (arith, stock_of-restock_self id delta n rows p)

  stock_of-restock :
      (id k : ℕ) (delta : ℤ) (n : ℕ) (rows : List (Product F)) (p : Product F)
      → find (has_id id) rows ≡ some p
      → stock_of k (update_where (has_id id) (restock delta n) rows)
        ≡ stock_of k rows +ℤ (if id == k then delta else pos 0)
  stock_of-restock id k delta n rows p h = elim (ℕ_discrete id k) [
    | yes same ↦ rw (← same, ==_refl id) (stock_of-restock_self id delta n rows p h)
    | no other ↦ grind (int_laws, stock_of-restock_other id k delta n rows other)
  ]

  -- Adding to the stock of one product moves that stock by the amount, and no other.
  pub stock_of-add_stock :
      (env : Env F) (delta : ℤ) (id n : ℕ) (db db' : Db F) (p : Product F) (k : ℕ)
      → add_stock env delta id n db ≡ ok (some p, db')
      → stock_of k db'.products ≡ stock_of k db.products +ℤ (if id == k then delta else pos 0)
  unfolding add_stock
  stock_of-add_stock env delta id n db db' p k h =
      elim (Option-cases (find (has_id id) db.products)) [
        | inl missing ↦ ground arith
        | inr (q, found) ↦ ground (arith, stock_of-restock id k delta n db.products q found)
      ]
