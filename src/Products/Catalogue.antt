-- ===== src/Products/Catalogue.antt =====
-- The catalogue that the products service implements: from identifiers to products.
pub mod Statements
pub mod Refines
use soa_hw.Prelude.{ℕ, ◌≡◌, Option, none, some, find, if◌then◌else◌, ◌==◌}
use soa_hw.Domain.{Product, product_archived}
use soa_hw.Store.{Env, Db}
use soa_hw.Store.Schema.{varchar, varchar_option}
use soa_hw.Products.Repository.{has_id}

abbrev pub Catalogue : Type 0 → Type 0
Catalogue F = ℕ → Option (Product F)

-- The catalogue that the table of products stands for.
abbrev pub catalogue : {F : Type 0} → Db F → Catalogue F
catalogue db id = find (has_id id) db.products

-- `c'` is `c` but for this product at this identifier.
abbrev pub Puts : {F : Type 0} → Catalogue F → ℕ → Product F → Catalogue F → Type 0
Puts c id p c' = (k : ℕ) → c' k ≡ (if id == k then some p else c k)

-- What an update leaves alone.
pub record SameOrigin {F : Type 0} (a b : Product F) : Type 0 where
  pub id : a.id ≡ b.id
  pub seller : a.seller_id ≡ b.seller_id
  pub created_at : a.created_at ≡ b.created_at

-- The row has the details of a product as the columns hold them.
abbrev pub IsStored : {F : Type 0} → Env F → Product F → Product F → Type 0
IsStored env p row =
    (row.name ≡ varchar 255 p.name)
    × (row.description ≡ varchar_option 4000 p.description)
    × (env.numeric p.price ≡ some row.price)
    × (row.stock ≡ p.stock)
    × (row.category ≡ varchar 100 p.category)
    × (row.status ≡ p.status)

-- The row is archived, with its other details as they were.
pub record IsArchived {F : Type 0} (old row : Product F) : Type 0 where
  pub name : row.name ≡ old.name
  pub description : row.description ≡ old.description
  pub price : row.price ≡ old.price
  pub stock : row.stock ≡ old.stock
  pub category : row.category ≡ old.category
  pub status : row.status ≡ product_archived

-- A request to the service.
pub data Request (F : Type 0) : Type 0 where
  creates updates : Product F → Request F
  deletes : ℕ → Request F

-- The steps of the catalogue, by the request that makes them and the product that it returns.
pub data Change {F : Type 0} (env : Env F) (reply : Product F) (c c' : Catalogue F)
    : Request F → Type 0 where
  adds :
      (p row : Product F)
      → row.id ≡ reply.id
      → row.seller_id ≡ p.seller_id
      → IsStored env p row
      → c row.id ≡ none
      → Puts c row.id row c'
      → Change env reply c c' (creates p)
  edits :
      (p old row : Product F)
      → c p.id ≡ some old
      → SameOrigin row old
      → IsStored env p row
      → Puts c p.id row c'
      → Change env reply c c' (updates p)
  archives :
      (id : ℕ) (old row : Product F)
      → c id ≡ some old
      → SameOrigin row old
      → IsArchived old row
      → Puts c id row c'
      → Change env reply c c' (deletes id)
