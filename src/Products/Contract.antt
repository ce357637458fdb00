-- ===== src/Products/Contract.antt =====
-- What the methods of the products repository promise to their callers.
use soa_hw.Prelude.{ℕ, ◌≡◌, refl, ◌∙◌, some, find}
use soa_hw.Prelude.Int.{ℤ}
use soa_hw.Domain.{Product}
use soa_hw.Store.{Env, Db, World}
use soa_hw.Store.Action.{ok, the_tx}
use soa_hw.Store.Outcome.{
  Triple, Inside, Inside-map, Inside-IsSteady, IsSteady, Returns, Triple-bind, Triple-bind_fact,
  Triple-on_error, Triple-or_raise, Triple-or_raise_last, Triple-raise_if_last, Triple-weaken,
}
use soa_hw.Store.Statements.{Triple-exec_select, Triple-exec_write}
use soa_hw.Products.Repository.{has_id, select_product, get_by_id, add_stock, update_stock}

module _ {F : Type 0} (env : Env F) {db : Db F} where
  -- `GetByID` reads the committed row.
  pub get_by_id-Triple :
      {P : World F → Type 0} (id : ℕ)
      → IsSteady db P
      → Triple db P (get_by_id env id) (Returns P (λ p. find (has_id id) db.products ≡ some p))
  unfolding get_by_id select_product
  get_by_id-Triple id steady =
      Triple-bind_fact
        (Triple-on_error _ (Triple-exec_select env (select_product id) _ steady (λ n. refl)))
        λ found e.
          Triple-weaken (Triple-or_raise_last found _ steady) (λ w p. p) (λ a w r. (r.0, e ∙ r.1))

  -- `UpdateStock` in a transaction, by what its statement does to the tables.
  pub update_stock-Triple :
      (id : ℕ) (delta : ℤ) (P Q : Db F → Type 0)
      → ((n : ℕ) (p : Product F) (d d' : Db F)
          → P d
          → add_stock env delta id n d ≡ ok (some p, d')
          → Q d')
      → Triple db (Inside db P) (update_stock env the_tx id delta) (λ _. Inside db Q)
  unfolding update_stock
  update_stock-Triple id delta P Q h =
      Triple-bind
        (Triple-on_error _ (
          Triple-exec_write env (add_stock env delta id) P
            (λ found d. (p : Product F) → found ≡ some p → Q d)
            (λ n found d d' p e q same. h n q d d' p cc)))
        λ found. Triple-or_raise found _ (Inside-IsSteady db _) λ row same.
          Triple-weaken (Triple-raise_if_last _ _ (Inside-IsSteady db Q))
            (λ w. Inside-map (λ d k. k row same)) (λ _ w p. p)
