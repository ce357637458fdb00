-- ===== src/Products/Handler.antt =====
-- internal/products/handler.go. A price in a body is the float64 that the float32 is converted to, and
-- the value of a successful reply is the product that mapProductToResponse converts. `scan` is
-- fmt.Sscanf with "%d" where it reads an int, and `sort` is ORDER BY, as in Products/Listing.
use soa_hw.Prelude.{
  ℕ, Bool, true, not, ◌&&◌, String, str_eq, Option, none, some, List, [], if◌then◌else◌,
}
use soa_hw.Prelude.Int.{ℤ, pos, ◌-ℤ◌, ltb_ℤ, leb_ℤ, wrap_int64}
use soa_hw.Domain.{Product, ProductStatus, product_active, product_inactive, product_archived}
use soa_hw.Domain
use soa_hw.Store.{Env}
use soa_hw.Store.Action.{Action, pure, ◌>>=◌}
use soa_hw.Http.Errors.{new_validation_error, new_product_not_found}
use soa_hw.Http.Reply.{
  Api, Reply, created, answered, no_content, attempt, unless, unless_err, service_error, deny_if,
  is_no_trader, or_old,
}
use soa_hw.Products.Listing.{Filter}
use soa_hw.Products.Service as Service

-- The fields of the generated types that the handlers read.
pub record ProductCreate (F : Type 0) : Type 0 where
  pub name : String
  pub description : Option String
  pub price : F
  pub stock : ℤ
  pub category : String
  pub status : Option String

pub record ProductUpdate (F : Type 0) : Type 0 where
  pub name : Option String
  pub description : Option String
  pub price : Option F
  pub stock : Option ℤ
  pub category : Option String
  pub status : Option String

pub record ProductPage (F : Type 0) : Type 0 where
  pub items : List (Product F)
  pub total_elements : ℕ
  pub page : ℤ
  pub size : ℤ

-- `domain.ProductStatus(s)`
abbrev pub product_status : String → ProductStatus
product_status s =
    if str_eq s "ACTIVE"
    then product_active
    else if str_eq s "INACTIVE"
    then product_inactive
    else if str_eq s "ARCHIVED"
    then product_archived
    else Domain.ProductStatus.other s

abbrev pub status_or_active : Option String → ProductStatus
status_or_active none = product_active
status_or_active (some s) = product_status s

abbrev pub status_or_old : Option String → ProductStatus → ProductStatus
status_or_old none old = old
status_or_old (some s) old = product_status s

abbrev pub description_or_old : Option String → Option String → Option String
description_or_old none old = old
description_or_old (some s) old = some s

-- The changes of a body to the product that was read.
abbrev pub edit : {F : Type 0} → ProductUpdate F → Product F → Product F
edit req p = record p {
  name = or_old req.name p.name;
  description = description_or_old req.description p.description;
  price = or_old req.price p.price;
  stock = or_old req.stock p.stock;
  category = or_old req.category p.category;
  status = status_or_old req.status p.status;
}

-- The product of a body, for a seller; Service.Create sets the other fields.
abbrev pub new_product : {F : Type 0} → ℕ → ProductCreate F → Product F
new_product seller req = record {
  id = 0;
  name = req.name;
  description = req.description;
  price = req.price;
  stock = req.stock;
  category = req.category;
  status = status_or_active req.status;
  seller_id = some seller;
  created_at = 0;
  updated_at = 0;
}

-- `SellerID == nil || SellerID.String() != userID`
abbrev pub is_foreign : Api → Option ℕ → String → Bool
is_foreign api none user_id = true
is_foreign api (some seller) user_id = not (str_eq (api.uuid_text seller) user_id)

-- `role != ADMIN && (...)`
abbrev pub may_not_change : {F : Type 0} → Api → String → String → Product F → Bool
may_not_change api user_id role p = not (str_eq role "ADMIN") && is_foreign api p.seller_id user_id

-- A query parameter as a number, if it is one and in range.
abbrev pub number_in : (ℤ → Bool) → Option ℤ → ℤ → ℤ
number_in in_range none default = default
number_in in_range (some n) default = if in_range n then n else default

abbrev pub page_number : (String → Option ℤ) → String → ℤ
page_number scan p =
    if str_eq p "" then pos 1 else number_in (λ n. ltb_ℤ (pos 0) n) (scan p) (pos 1)

abbrev pub page_size : (String → Option ℤ) → String → ℤ
page_size scan s =
    if str_eq s ""
    then pos 20
    else number_in (λ n. ltb_ℤ (pos 0) n && leb_ℤ n (pos 100)) (scan s) (pos 20)

abbrev pub nonempty : String → Option String
nonempty s = if str_eq s "" then none else some s

abbrev pub status_filter : Option String → Option ProductStatus
status_filter none = none
status_filter (some s) = some (product_status s)

-- The filter of a query.
unfoldable pub filter_of : (String → Option ℤ) → String → String → String → String → Filter
filter_of scan page size category status = record {
  status = status_filter (nonempty status);
  category = nonempty category;
  page = wrap_int64 (page_number scan page -ℤ pos 1);
  size = page_size scan size;
}

module _ {F : Type 0} (env : Env F) (api : Api) where
  unfoldable pub create_product :
      String → String → Option (ProductCreate F) → Action F (Reply (Product F))
  create_product user_id role body = deny_if (is_no_trader role) (
      unless (new_validation_error "Invalid request body" []) body λ req.
        unless (new_validation_error "Invalid user ID" []) (api.parse_uuid user_id) λ seller. do
          stored ← attempt (Service.create env (new_product seller req))
          unless_err (service_error api 400) stored λ p. pure (created p))

  unfoldable pub get_product : String → Action F (Reply (Product F))
  get_product id_text =
      unless (new_validation_error "Invalid product ID" []) (api.parse_uuid id_text) λ id. do
        found ← attempt (Service.get_by_id env id)
        unless_err (λ _. new_product_not_found (λ s. s) id_text) found λ p. pure (answered p)

  -- The query's parameters are `page`, `size`, `category` and `status`, empty where absent.
  unfoldable pub list_products :
      (ℕ → List (Product F) → List (Product F))
      → (String → Option ℤ)
      → String
      → String
      → String
      → String
      → Action F (Reply (ProductPage F))
  list_products sort scan page size category status = do
    let filter : Filter = filter_of scan page size category status
    result ← attempt (Service.list env sort filter)
    unless_err (service_error api 500) result λ r. pure (
        answered (record {
          items = r.products;
          total_elements = r.total_elements;
          page = filter.page;
          size = filter.size;
        }))

  unfoldable pub update_product :
      String → String → String → Option (ProductUpdate F) → Action F (Reply (Product F))
  update_product user_id role id_text body =
      unless (new_validation_error "Invalid product ID" []) (api.parse_uuid id_text) λ id. do
        found ← attempt (Service.get_by_id env id)
        unless_err (λ _. new_product_not_found (λ s. s) id_text) found
            λ p. deny_if (may_not_change api user_id role p) (
              unless (new_validation_error "Invalid request body" []) body λ req. do
                stored ← attempt (Service.update env (edit req p))
                unless_err (service_error api 400) stored λ p'. pure (answered p'))

  unfoldable pub delete_product : String → String → String → Action F (Reply (Product F))
  delete_product user_id role id_text =
      unless (new_validation_error "Invalid product ID" []) (api.parse_uuid id_text) λ id. do
        found ← attempt (Service.get_by_id env id)
        unless_err (λ _. new_product_not_found (λ s. s) id_text) found
            λ p. deny_if (may_not_change api user_id role p) do
              archived ← attempt (Service.delete env id)
              unless_err (service_error api 500) archived λ _. pure no_content
