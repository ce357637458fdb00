-- ===== src/Products/Listing.antt =====
-- `List` of internal/products/repository_impl.go. PostgreSQL's `ORDER BY created_at DESC` is a
-- parameter, numbered by calls, since it leaves open how rows of the same time are ordered, and each
-- query may order them in another way.
use soa_hw.Prelude.{
  ℕ, Bool, true, false, ◌&&◌, ◌||◌, not, Option, none, some, List, String, str_eq, length, select,
  take, drop, if◌then◌else◌,
}
use soa_hw.Prelude.Int.{ℤ, pos, pos_part, ltb_ℤ, ◌*ℤ◌, wrap_int64}
use soa_hw.Domain.{Product, ProductStatus, product_active, product_inactive, product_archived}
use soa_hw.Domain
use soa_hw.Store.{Env}
use soa_hw.Store.Schema.{is_product_status}
use soa_hw.Store.Action.{
  ok, err, violation, wrap, failed_to_count_products, failed_to_list_products, Action, Sql, nil_tx,
  exec, on_error, pure, ◌>>=◌,
}

pub record Filter : Type 0 where
  pub status : Option ProductStatus
  pub category : Option String
  pub page : ℤ
  pub size : ℤ

pub record ListResult (F : Type 0) : Type 0 where
  pub products : List (Product F)
  pub total_elements : ℕ

abbrev pub product_status_eq : ProductStatus → ProductStatus → Bool
product_status_eq product_active product_active = true
product_status_eq product_inactive product_inactive = true
product_status_eq product_archived product_archived = true
product_status_eq (Domain.other s) (Domain.other t) = str_eq s t
product_status_eq _ _ = false

-- `status = $1`, if the filter has a status.
abbrev pub has_status : {F : Type 0} → Option ProductStatus → Product F → Bool
has_status none p = true
has_status (some s) p = product_status_eq p.status s

-- `category = $2`, if the filter has a category.
abbrev pub has_category : {F : Type 0} → Option String → Product F → Bool
has_category none p = true
has_category (some c) p = str_eq p.category c

-- The WHERE clause.
abbrev pub matches : {F : Type 0} → Filter → Product F → Bool
matches f p = has_status f.status p && has_category f.category p

-- A value that the column's ENUM type does not have is an error of the query.
abbrev pub is_known : Option ProductStatus → Bool
is_known none = true
is_known (some s) = is_product_status s

-- `filter.Page * filter.Size`
unfoldable pub offset : Filter → ℤ
offset f = wrap_int64 (f.page *ℤ f.size)

module _ {F : Type 0} where
  unfoldable pub count_products : Filter → Sql F ℕ
  count_products f n db =
      if is_known f.status then ok (length (select (matches f) db.products), db) else err violation

  -- LIMIT and OFFSET must not be negative.
  unfoldable pub select_page :
      (List (Product F) → List (Product F)) → Filter → Sql F (List (Product F))
  unfolding offset
  select_page sort f n db =
      if is_known f.status && not (ltb_ℤ f.size (pos 0) || ltb_ℤ (offset f) (pos 0))
      then ok (
        take (pos_part f.size) (drop (pos_part (offset f)) (sort (select (matches f) db.products))),
        db,
      )
      else err violation

  module _ (sort : ℕ → List (Product F) → List (Product F)) where
    -- The query for a page, ordered as PostgreSQL orders this call.
    unfoldable pub query_page : Env F → Filter → Action F (List (Product F))
    query_page env f w = exec env nil_tx (select_page (sort w.calls) f) w

    unfoldable pub list : Env F → Filter → Action F (ListResult F)
    unfolding count_products
    list env f = do
      total ← on_error (wrap failed_to_count_products) (exec env nil_tx (count_products f))
      rows ← on_error (wrap failed_to_list_products) (query_page env f)
      pure (record { products = rows; total_elements = total })
