-- ===== src/Products/Repository.antt =====
-- internal/products/repository_impl.go: each query as a statement on the tables, and the methods
-- that run them.
use soa_hw.Prelude.{
  ℕ, Bool, ◌&&◌, Option, none, some, [], ◌∷◌, ◌++◌, ◌==◌, find, update_where, if◌then◌else◌,
}
use soa_hw.Prelude.Int.{ℤ, pos, ◌+ℤ◌, ltb_ℤ, is_int4}
use soa_hw.Domain.{User, Product, product_archived}
use soa_hw.Store.{Env, Db}
use soa_hw.Store.Schema.{varchar, varchar_option, product_row, fresh_id, refers}
use soa_hw.Store.Action.{
  Result, ok, err, violation, wrap, failed_to_create_product, failed_to_get_product,
  failed_to_update_product, failed_to_archive_product, failed_to_update_stock, product_missing,
  insufficient_stock, Action, Sql, Handle, nil_tx, exec, on_error, or_raise, raise_if, ◌>>=◌,
}

module _ {F : Type 0} where
  -- `WHERE id = $1`
  abbrev pub has_id : ℕ → Product F → Bool
  has_id id p = p.id == id

  abbrev pub restock : ℤ → ℕ → Product F → Product F
  restock delta n p = record p { stock = p.stock +ℤ delta; updated_at = n }

  abbrev archive : ℕ → Product F → Product F
  archive n p = record p { status = product_archived; updated_at = n }

  -- The columns that `Update` sets; the trigger sets `updated_at` to the statement's time.
  abbrev overwrite : Product F → F → ℕ → Product F → Product F
  overwrite new price n p = record p {
    name = varchar 255 new.name;
    description = varchar_option 4000 new.description;
    price = price;
    stock = new.stock;
    category = varchar 100 new.category;
    status = new.status;
    updated_at = n;
  }

  unfoldable pub select_product : ℕ → Sql F (Option (Product F))
  select_product id n db = ok (find (has_id id) db.products, db)

  module _ (env : Env F) where
    unfoldable pub put_product : Product F → Db F → Result (Unit {0} × Db F)
    put_product row db =
        if product_row env row
          && fresh_id (λ (p : Product F). p.id) row db.products
          && refers (λ (u : User). u.id) row.seller_id db.users
        then ok (tt, record db { products = db.products ++ row ∷ [] })
        else err violation

    unfoldable pub insert_product : Product F → Sql F (Unit {0})
    unfolding put_product
    insert_product p n db = elim (env.numeric p.price) [
      | none ↦ err violation
      | some price ↦
          put_product
            (record p {
              name = varchar 255 p.name;
              description = varchar_option 4000 p.description;
              price = price;
              category = varchar 100 p.category;
              created_at = env.timestamp p.created_at;
              updated_at = env.timestamp p.updated_at;
            })
            db
    ]

    -- An update of the row with this identifier, and the rows affected.
    unfoldable pub change_product :
        ℕ → (Product F → Product F) → Db F → Result (Option (Product F) × Db F)
    change_product id f db = elim (find (has_id id) db.products) [
      | none ↦ ok (none, db)
      | some p ↦
          if product_row env (f p)
          then ok (some (f p), record db { products = update_where (has_id id) f db.products })
          else err violation
    ]

    unfoldable pub update_product : Product F → Sql F (Option (Product F))
    unfolding change_product
    update_product p n db = elim (env.numeric p.price) [
      | none ↦ err violation
      | some price ↦ change_product p.id (overwrite p price n) db
    ]

    unfoldable pub archive_product : ℕ → Sql F (Option (Product F))
    unfolding change_product
    archive_product id n db = change_product id (archive n) db

    -- `RETURNING stock` of the changed row
    unfoldable pub add_stock : ℤ → ℕ → Sql F (Option (Product F))
    unfolding change_product
    add_stock delta id n db =
        if is_int4 delta then change_product id (restock delta n) db else err violation

    unfoldable pub create : Product F → Action F (Unit {0})
    create p = on_error (wrap failed_to_create_product) (exec env nil_tx (insert_product p))

    unfoldable pub get_by_id : ℕ → Action F (Product F)
    get_by_id id = do
      found ← on_error (wrap failed_to_get_product) (exec env nil_tx (select_product id))
      or_raise found product_missing

    unfoldable pub update : Product F → Action F (Product F)
    update p = do
      rows ← on_error (wrap failed_to_update_product) (exec env nil_tx (update_product p))
      or_raise rows product_missing

    unfoldable pub delete : ℕ → Action F (Product F)
    delete id = do
      rows ← on_error (wrap failed_to_archive_product) (exec env nil_tx (archive_product id))
      or_raise rows product_missing

    unfoldable pub update_stock : Handle → ℕ → ℤ → Action F (Unit {0})
    update_stock tx id delta = do
      found ← on_error (wrap failed_to_update_stock) (exec env tx (add_stock delta id))
      row ← or_raise found product_missing
      raise_if (ltb_ℤ row.stock (pos 0)) insufficient_stock
