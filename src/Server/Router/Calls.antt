-- ===== src/Server/Router/Calls.antt =====
-- The calls of the services keep what their statements keep.
use soa_hw.Prelude.{ℕ, ◌≡◌, refl, String, Option, List, arith}
use soa_hw.Prelude.Int.{ℤ, pos}
use soa_hw.Domain.{User, UserRole, Product}
use soa_hw.Domain.Promo.{PromoCode}
use soa_hw.Store.{Env, Db}
use soa_hw.Store.Action.{ok}
use soa_hw.Store.Keeps.{
  Keeps, Keeps-pure, Keeps-bind, Keeps-on_error, Keeps-or_raise, Keeps-exec, Keeps-time_now,
  Keeps-uuid_new,
}
use soa_hw.Users.Service as Users
use soa_hw.Users.Service.{Crypto, Config, hash_password}
use soa_hw.Users.Repository as UserRows
use soa_hw.Products.Service as Products
use soa_hw.Products.Repository as ProductRows
use soa_hw.Promos.Service as Promos
use soa_hw.Promos.Repository as PromoRows
use soa_hw.Orders.Service as Orders
use soa_hw.Orders.Service.{OrderItemRequest}
use soa_hw.Orders.Inventory.Statements.{SameBooks}
use soa_hw.Server.Router.Keeps.{Calls}

module _ {F : Type 0} (env : Env F) (n : ℕ) (d d' : Db F) where
  insert_user-SameBooks : (u : User) → UserRows.insert_user env u n d ≡ ok (tt, d') → SameBooks d d'
  unfolding UserRows.insert_user UserRows.put_user
  insert_user-SameBooks u h = record {
    orders = ground arith;
    promo_codes = ground arith;
    user_operations = ground arith;
  }

  insert_product-SameBooks :
      (p : Product F) → ProductRows.insert_product env p n d ≡ ok (tt, d') → SameBooks d d'
  unfolding ProductRows.insert_product
  insert_product-SameBooks p h = record {
    orders = ground arith;
    promo_codes = ground arith;
    user_operations = ground arith;
  }

  update_product-SameBooks :
      (p : Product F) (r : Option (Product F))
      → ProductRows.update_product env p n d ≡ ok (r, d')
      → SameBooks d d'
  unfolding ProductRows.update_product
  update_product-SameBooks p r h = record {
    orders = ground arith;
    promo_codes = ground arith;
    user_operations = ground arith;
  }

  archive_product-SameBooks :
      (id : ℕ) (r : Option (Product F))
      → ProductRows.archive_product env id n d ≡ ok (r, d')
      → SameBooks d d'
  unfolding ProductRows.archive_product
  archive_product-SameBooks id r h = record {
    orders = ground arith;
    promo_codes = ground arith;
    user_operations = ground arith;
  }

-- What is asked of a property of the tables: it is kept where the tables of orders, promo codes and
-- operations stay, by the statements on promo codes, and by the calls that write orders.
pub record Laws {F : Type 0} (env : Env F) (R : Db F → Type 0) : Type 0 where
  pub frame : (d d' : Db F) → SameBooks d d' → R d → R d'
  pub insert_promo :
      (p : PromoCode F) (n : ℕ) (d d' : Db F)
      → p.current_uses ≡ pos 0
      → R d
      → PromoRows.insert_promo env p n d ≡ ok (tt, d')
      → R d'
  pub update_promo :
      (p : PromoCode F) (n : ℕ) (d d' : Db F)
      → R d
      → PromoRows.update_promo env p n d ≡ ok (tt, d')
      → R d'
  pub delete_promo :
      (id n : ℕ) (d d' : Db F) → R d → PromoRows.delete_promo id n d ≡ ok (tt, d') → R d'
  pub create_order :
      (minutes : ℤ) (user_id : ℕ) (requests : List OrderItemRequest) (code : Option String)
      → Keeps R (Orders.create env minutes user_id requests code)
  pub update_order :
      (id user_id : ℕ) (requests : List OrderItemRequest)
      → Keeps R (Orders.update env id user_id requests)
  pub cancel_order : (id user_id : ℕ) → Keeps R (Orders.cancel env id user_id)

module _ {F : Type 0} (c : Crypto) (config : Config) (env : Env F) (R : Db F → Type 0)
    (laws : Laws env R) where
  register-Keeps :
      (email password : String) (role : UserRole)
      → Keeps R (Users.register c config env email password role)
  unfolding Users.register hash_password UserRows.create
  register-Keeps email password role =
      Keeps-bind _ (Keeps-on_error _ _ (Keeps-uuid_new _ env λ salt. Keeps-or_raise _ _ _))
        λ hashed. Keeps-uuid_new _ env λ id. Keeps-time_now _ env λ created_at.
          Keeps-time_now _ env λ updated_at.
            Keeps-bind _
              (Keeps-on_error _ _ (
                Keeps-on_error _ _ (
                  Keeps-exec _ env _
                    (λ n d d' u b e. laws.frame d d' (insert_user-SameBooks env n d d' _ e) b))))
              λ _. Keeps-pure _ _

  create_product-Keeps : (p : Product F) → Keeps R (Products.create env p)
  unfolding Products.create ProductRows.create
  create_product-Keeps p = Keeps-uuid_new _ env λ id. Keeps-time_now _ env λ created_at.
      Keeps-time_now _ env λ updated_at.
        Keeps-bind _
          (Keeps-on_error _ _ (
            Keeps-exec _ env _
              (λ n d d' u b e. laws.frame d d' (insert_product-SameBooks env n d d' _ e) b)))
          λ _. Keeps-pure _ _

  update_product-Keeps : (p : Product F) → Keeps R (Products.update env p)
  unfolding Products.update ProductRows.update
  update_product-Keeps p = Keeps-time_now _ env λ updated_at.
      Keeps-bind _
        (Keeps-bind _
          (Keeps-on_error _ _ (
            Keeps-exec _ env _
              (λ n d d' r b e. laws.frame d d' (update_product-SameBooks env n d d' _ r e) b)))
          λ rows. Keeps-or_raise _ _ _)
        λ _. Keeps-pure _ _

  delete_product-Keeps : (id : ℕ) → Keeps R (Products.delete env id)
  unfolding Products.delete ProductRows.delete
  delete_product-Keeps id =
      Keeps-bind _
        (Keeps-on_error _ _ (
          Keeps-exec _ env _
            (λ n d d' r b e. laws.frame d d' (archive_product-SameBooks env n d d' _ r e) b)))
        λ rows. Keeps-or_raise _ _ _

  create_promo_code-Keeps : (p : PromoCode F) → Keeps R (Promos.create env p)
  unfolding Promos.create PromoRows.create
  create_promo_code-Keeps p = Keeps-uuid_new _ env λ id.
      Keeps-bind _
        (Keeps-on_error _ _
          (Keeps-exec _ env _ (λ n d d' u b e. laws.insert_promo _ n d d' refl b e)))
        λ _. Keeps-pure _ _

  update_promo_code-Keeps : (p : PromoCode F) → Keeps R (Promos.update env p)
  unfolding Promos.update PromoRows.update
  update_promo_code-Keeps p =
      Keeps-on_error _ _ (Keeps-exec _ env _ (λ n d d' u b e. laws.update_promo p n d d' b e))

  delete_promo_code-Keeps : (id : ℕ) → Keeps R (Promos.delete env id)
  unfolding Promos.delete PromoRows.delete
  delete_promo_code-Keeps id =
      Keeps-on_error _ _ (Keeps-exec _ env _ (λ n d d' u b e. laws.delete_promo id n d d' b e))

  pub all_calls : Calls c config env R
  all_calls = record {
    register = register-Keeps;
    create_product = create_product-Keeps;
    update_product = update_product-Keeps;
    delete_product = delete_product-Keeps;
    create_promo_code = create_promo_code-Keeps;
    update_promo_code = update_promo_code-Keeps;
    delete_promo_code = delete_promo_code-Keeps;
    create_order = laws.create_order;
    update_order = laws.update_order;
    cancel_order = laws.cancel_order;
  }
