-- ===== src/Products/Catalogue/Refines.antt =====
-- The products service implements the catalogue.
use soa_hw.Prelude.{ℕ, ◌≡◌, refl, subst, Option, none, some}
use soa_hw.Domain.{Product}
use soa_hw.Store.{Env, Db, World}
use soa_hw.Store.Action.{Action, or_raise, raise, pure, product_missing}
use soa_hw.Store.Outcome.{
  Ends, Triple, Outside, Outside-IsSteady, Triple-bind, Triple-on_error, Triple-pure, Triple-weaken,
  Triple-time_now, Triple-uuid_new,
}
use soa_hw.Store.Statements.{Triple-exec_commit}
use soa_hw.Products.Repository as Repository
use soa_hw.Products.Repository.{
  has_id, insert_product, put_product, update_product, archive_product, change_product,
}
use soa_hw.Products.Service.{create, update, delete}
use soa_hw.Products.Catalogue.{
  catalogue, Puts, SameOrigin, Change, adds, edits, archives, Request, creates, updates, deletes,
  IsStored, IsArchived,
}
use soa_hw.Products.Catalogue.Statements.{
  insert_product_lem, IsChange, update_product-IsChange, archive_product-IsChange,
}

module _ {F : Type 0} (env : Env F) (db : Db F) where
  -- What a successful creation has done, and returns.
  abbrev pub Creates : Product F → Product F → World F → Type 0
  Creates p r w =
      (stored : Product F) × (stored.id ≡ r.id)
      × (stored.seller_id ≡ p.seller_id)
      × (catalogue db stored.id ≡ none)
      × Puts (catalogue db) stored.id stored (catalogue w.db)
      × IsStored env p stored

  -- What a successful update or deletion has done.
  abbrev pub Edits : (Product F → Product F → Type 0) → ℕ → World F → Type 0
  Edits Content id w = (p : Product F) × IsChange env db Content id w.db (some p)

  abbrev pub Stores : Product F → Product F → Product F → Type 0
  Stores p _ row = IsStored env p row

  create-Triple : (p : Product F) → Triple db (Outside db) (create env p) (Creates p)
  unfolding create Repository.create
  create-Triple p = Triple-uuid_new env (Outside-IsSteady db) λ id.
      Triple-time_now env (Outside-IsSteady db) λ created_at.
        Triple-time_now env (Outside-IsSteady db) λ updated_at.
          Triple-bind
            (Triple-on_error _ (
              Triple-exec_commit env (insert_product env _) _
                (λ n u d e. insert_product_lem env db _ n d e)))
            λ _. Triple-weaken (Triple-pure _) (λ w q. q) (λ a w q. q)

  changed-Triple :
      (Content : Product F → Product F → Type 0) (id : ℕ) (r : Option (Product F))
      → Triple db
          (λ w. IsChange env db Content id w.db r)
          (or_raise r product_missing)
          (λ _. Edits Content id)
  unfolding or_raise raise pure
  changed-Triple Content id none = record { run = λ w h. h }
  changed-Triple Content id (some p) = record { run = λ w h. (p, h) }

  update-Triple :
      (p : Product F) → Triple db (Outside db) (update env p) (λ _. Edits (Stores p) p.id)
  unfolding update Repository.update
  update-Triple p = Triple-time_now env (Outside-IsSteady db) λ updated_at.
      Triple-bind
        (Triple-bind
          (Triple-on_error _ (
            Triple-exec_commit env (update_product env _) _
              (λ n r d e. update_product-IsChange env db _ n d r e)))
          λ r. changed-Triple (Stores p) p.id r)
        λ _. Triple-pure _

  delete-Triple : (id : ℕ) → Triple db (Outside db) (delete env id) (λ _. Edits IsArchived id)
  unfolding delete Repository.delete
  delete-Triple id =
      Triple-bind
        (Triple-on_error _ (
          Triple-exec_commit env (archive_product env id) _
            (λ n r d e. archive_product-IsChange env db id n d r e)))
        λ r. changed-Triple IsArchived id r

module _ {F : Type 0} (env : Env F) where
  pub create_lem : (p : Product F) (w : World F) → Ends w.db (Creates env w.db p) (create env p w)
  create_lem p w = (create-Triple env w.db p).run w (record { same = refl })

  pub update_lem :
      (p : Product F) (w : World F)
      → Ends w.db (λ _. Edits env w.db (Stores env w.db p) p.id) (update env p w)
  update_lem p w = (update-Triple env w.db p).run w (record { same = refl })

  pub delete_lem :
      (id : ℕ) (w : World F) → Ends w.db (λ _. Edits env w.db IsArchived id) (delete env id w)
  delete_lem id w = (delete-Triple env w.db id).run w (record { same = refl })

abbrev pub serve : {F : Type 0} → Env F → Request F → Action F (Product F)
serve env (creates p) = create env p
serve env (updates p) = update env p
serve env (deletes id) = delete env id

module _ {F : Type 0} (env : Env F) (db : Db F) where
  -- The catalogue has made the step of this request.
  abbrev pub Steps : Request F → Product F → World F → Type 0
  Steps request reply w = Change env reply (catalogue db) (catalogue w.db) request

  -- A change of the row `id`, by its identifier.
  edited :
      (Content : Product F → Product F → Type 0) (id : ℕ) (w : World F)
      → Edits env db Content id w
      → (old : Product F) × (row : Product F) × (catalogue db id ≡ some old)
        × SameOrigin row old
        × Content old row
        × Puts (catalogue db) id row (catalogue w.db)
  edited Content id w (row, (old, own, found, same, puts, content)) = (
    old,
    row,
    subst (λ k. catalogue db k ≡ some old) own found,
    same,
    content,
    subst (λ k. Puts (catalogue db) k row (catalogue w.db)) own puts,
  )

  creates-Steps : (p r : Product F) (w : World F) → Creates env db p r w → Steps (creates p) r w
  creates-Steps p r w (row, own, seller, fresh, puts, stored) =
      adds p row own seller stored fresh puts

  updates-Steps :
      (p r : Product F) (w : World F)
      → Edits env db (Stores env db p) p.id w
      → Steps (updates p) r w
  updates-Steps p r w h =
      let (old, row, found, same, stored, puts) = edited (Stores env db p) p.id w h in
      edits p old row found same stored puts

  deletes-Steps :
      (id : ℕ) (r : Product F) (w : World F) → Edits env db IsArchived id w → Steps (deletes id) r w
  deletes-Steps id r w h =
      let (old, row, found, same, archived, puts) = edited IsArchived id w h in
      archives id old row found same archived puts

  serve-Triple : (request : Request F) → Triple db (Outside db) (serve env request) (Steps request)
  serve-Triple (creates p) = Triple-weaken (create-Triple env db p) (λ w h. h) (creates-Steps p)
  serve-Triple (updates p) = Triple-weaken (update-Triple env db p) (λ w h. h) (updates-Steps p)
  serve-Triple (deletes id) = Triple-weaken (delete-Triple env db id) (λ w h. h) (deletes-Steps id)

-- Every request to the products service fails and leaves the tables as they were, or is one step of
-- the catalogue. Create adds a product with the details (as the columns hold them) and the seller of
-- the one it is given, under the identifier that it returns, which had none. Update gives the product
-- of that identifier the details of the one it is given, and Delete archives it: its identifier,
-- seller and time of creation stay. No request touches another product.
pub serve-Steps :
    {F : Type 0} (env : Env F) (request : Request F) (w : World F)
    → Ends w.db (Steps env w.db request) (serve env request w)
serve-Steps env request w = (serve-Triple env w.db request).run w (record { same = refl })
