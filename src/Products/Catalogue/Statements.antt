-- ===== src/Products/Catalogue/Statements.antt =====
-- What the statements on products do to the catalogue.
use soa_hw.Prelude.{
  ℕ, ◌≡◌, refl, sym, false, Option, none, some, [], ◌∷◌, find, any, update_where, ◌==◌, ==_iff,
  find_sound, find-key_append, find-any-none, find-key_update, arith, subst, Option-cases, inl, inr,
  ◌++◌,
}
use soa_hw.Domain.{Product}
use soa_hw.Store.{Env, Db}
use soa_hw.Store.Schema.{varchar, varchar_option}
use soa_hw.Store.Action.{Result, ok, err, violation}
use soa_hw.Products.Repository.{
  has_id, insert_product, put_product, update_product, archive_product, change_product,
}
use soa_hw.Products.Catalogue.{catalogue, Puts, SameOrigin, IsStored, IsArchived}

module _ {F : Type 0} (env : Env F) (db : Db F) where
  put_product_rows :
      (row : Product F) (d : Db F)
      → put_product env row db ≡ ok (tt, d)
      → (any (λ x. x.id == row.id) db.products ≡ false) × (d.products ≡ db.products ++ row ∷ [])
  unfolding put_product
  put_product_rows row d h = (ground arith, ground arith)

  put_product_lem :
      (row : Product F) (d : Db F)
      → put_product env row db ≡ ok (tt, d)
      → (catalogue db row.id ≡ none) × Puts (catalogue db) row.id row (catalogue d)
  put_product_lem row d h =
      let (fresh, rows) = put_product_rows row d h in
      (
        find-any-none (has_id row.id) db.products fresh,
        λ id. rw rows (find-key_append (λ x. x.id) id db.products row fresh),
      )

  nothing_stored : (d : Db F) → ¬ (◌≡◌ {A = Result (Unit {0} × Db F)} (err violation) (ok (tt, d)))
  nothing_stored d e = cc

  pub insert_product_lem :
      (p : Product F) (n : ℕ) (d : Db F)
      → insert_product env p n db ≡ ok (tt, d)
      → (stored : Product F) × (stored.id ≡ p.id)
        × (stored.seller_id ≡ p.seller_id)
        × (catalogue db stored.id ≡ none)
        × Puts (catalogue db) stored.id stored (catalogue d)
        × IsStored env p stored
  unfolding insert_product
  insert_product_lem p n d h = elim (Option-cases (env.numeric p.price)) [
    | inl e ↦ absurd (nothing_stored d (rw (e, insert_product) at h))
    | inr (price, e) ↦
        let row : Product F = record p {
          name = varchar 255 p.name;
          description = varchar_option 4000 p.description;
          price = price;
          category = varchar 100 p.category;
          created_at = env.timestamp p.created_at;
          updated_at = env.timestamp p.updated_at;
        } in
        let (fresh, puts) = put_product_lem row d (rw (e, insert_product) at h) in
        (row, refl, refl, fresh, puts, (refl, refl, e, refl, refl, refl))
  ]

  change_product_rows :
      (id : ℕ) (f : Product F → Product F) (d : Db F) (p old : Product F)
      → find (has_id id) db.products ≡ some old
      → change_product env id f db ≡ ok (some p, d)
      → (p ≡ f old) × (d.products ≡ update_where (has_id id) f db.products)
  unfolding change_product
  change_product_rows id f d p old e h = (ground arith, ground arith)

  change_product-none :
      (id : ℕ) (f : Product F → Product F) (d : Db F) (p : Product F)
      → find (has_id id) db.products ≡ none
      → ¬ (change_product env id f db ≡ ok (some p, d))
  unfolding change_product
  change_product-none id f d p e h = ground arith

  change_product_lem :
      (id : ℕ) (f : Product F → Product F) (d : Db F) (p : Product F)
      → ((x : Product F) → SameOrigin (f x) x)
      → change_product env id f db ≡ ok (some p, d)
      → (old : Product F) × (old.id ≡ id)
        × (catalogue db id ≡ some old)
        × (p ≡ f old)
        × Puts (catalogue db) id p (catalogue d)
  change_product_lem id f d p same h = elim (Option-cases (find (has_id id) db.products)) [
    | inl e ↦ absurd (change_product-none id f d p e h)
    | inr (old, e) ↦
        let (is_f, rows) = change_product_rows id f d p old e h in
        let own : old.id ≡ id = (==_iff old.id id).0 (find_sound (has_id id) db.products old e) in
        (
          old,
          own,
          e,
          is_f,
          λ k.
              rw (rows, is_f)
                (find-key_update (λ x. x.id) k id f db.products old (λ x. (same x).id) e),
        )
  ]

  -- What a statement that changes the row `id` has done: nothing if there is none. `Content` is about
  -- the row before it and after.
  abbrev pub IsChange : (Product F → Product F → Type 0) → ℕ → Db F → Option (Product F) → Type 0
  IsChange Content id d none = d ≡ db
  IsChange Content id d (some p) =
      (old : Product F) × (old.id ≡ id)
      × (catalogue db old.id ≡ some old)
      × SameOrigin p old
      × Puts (catalogue db) old.id p (catalogue d)
      × Content old p

  change_product_same :
      (id : ℕ) (f : Product F → Product F) (d : Db F)
      → change_product env id f db ≡ ok (none, d)
      → d ≡ db
  unfolding change_product
  change_product_same id f d h = ground arith

  change_product-IsChange :
      (Content : Product F → Product F → Type 0) (id : ℕ) (f : Product F → Product F) (d : Db F)
      (r : Option (Product F))
      → ((x : Product F) → SameOrigin (f x) x)
      → ((x : Product F) → Content x (f x))
      → change_product env id f db ≡ ok (r, d)
      → IsChange Content id d r
  change_product-IsChange Content id f d none same kept h = change_product_same id f d h
  change_product-IsChange Content id f d (some p) same kept h =
      let (old, own, found, is_f, puts) = change_product_lem id f d p same h in
      (
        old,
        own,
        subst (λ k. catalogue db k ≡ some old) (sym own) found,
        subst (λ q. SameOrigin q old) (sym is_f) (same old),
        subst (λ k. Puts (catalogue db) k p (catalogue d)) (sym own) puts,
        subst (λ q. Content old q) (sym is_f) (kept old),
      )

  nothing_changed :
      (d : Db F) (r : Option (Product F))
      → ¬ (◌≡◌ {A = Result (Option (Product F) × Db F)} (err violation) (ok (r, d)))
  nothing_changed d r e = cc

  pub update_product-IsChange :
      (p : Product F) (n : ℕ) (d : Db F) (r : Option (Product F))
      → update_product env p n db ≡ ok (r, d)
      → IsChange (λ _ row. IsStored env p row) p.id d r
  unfolding update_product
  update_product-IsChange p n d r h = elim (Option-cases (env.numeric p.price)) [
    | inl e ↦ absurd (nothing_changed d r (rw (e, update_product) at h))
    | inr (price, e) ↦
        change_product-IsChange _ p.id _ d r
          (λ x. record { id = refl; seller = refl; created_at = refl })
          (λ x. (refl, refl, e, refl, refl, refl)) (rw (e, update_product) at h)
  ]

  pub archive_product-IsChange :
      (id n : ℕ) (d : Db F) (r : Option (Product F))
      → archive_product env id n db ≡ ok (r, d)
      → IsChange IsArchived id d r
  unfolding archive_product
  archive_product-IsChange id n d r h =
      change_product-IsChange _ id _ d r
        (λ x. record { id = refl; seller = refl; created_at = refl })
        (λ x. record {
          name = refl;
          description = refl;
          price = refl;
          stock = refl;
          category = refl;
          status = refl;
        })
        h
