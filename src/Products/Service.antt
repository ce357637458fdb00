-- ===== src/Products/Service.antt =====
-- internal/products/service_impl.go. `Create` and `Update` also set fields of the product that their
-- caller holds, which is the result here.
use soa_hw.Prelude.{ℕ, List}
use soa_hw.Domain.{Product}
use soa_hw.Store.{Env}
use soa_hw.Store.Action.{Action, pure, time_now, uuid_new, ◌>>=◌, ◌>>◌}
use soa_hw.Products.Repository as Repository
use soa_hw.Products.Listing as Listing
use soa_hw.Products.Listing.{Filter, ListResult}

module _ {F : Type 0} (env : Env F) where
  unfoldable pub create : Product F → Action F (Product F)
  create product = do
    id ← uuid_new env
    created_at ← time_now env
    updated_at ← time_now env
    let stamped : Product F = record product {
      id = id;
      created_at = created_at;
      updated_at = updated_at;
    }
    Repository.create env stamped
    pure stamped

  unfoldable pub get_by_id : ℕ → Action F (Product F)
  get_by_id id = Repository.get_by_id env id

  unfoldable pub update : Product F → Action F (Product F)
  update product = do
    updated_at ← time_now env
    let stamped : Product F = record product { updated_at = updated_at }
    Repository.update env stamped
    pure stamped

  unfoldable pub delete : ℕ → Action F (Product F)
  delete id = Repository.delete env id

  unfoldable pub list : (ℕ → List (Product F) → List (Product F)) → Filter → Action F (ListResult F)
  list sort filter = Listing.list sort env filter
