-- ===== src/Products/Response.antt =====
-- mapProductToResponse of internal/products/handler.go, to the generated types api.ProductResponse and
-- api.ProductPageResponse.
use soa_hw.Prelude.{ℕ, String, Option, List, map}
use soa_hw.Prelude.Int.{ℤ}
use soa_hw.Domain.{Product, ProductStatus, product_active, product_inactive, product_archived}
use soa_hw.Domain
use soa_hw.Store.{Env}
use soa_hw.Http.Reply.{Api, optional_text}
use soa_hw.Products.Handler.{ProductPage}

pub record ProductResponse (F : Type 0) : Type 0 where
  pub id : String
  pub name : String
  pub description : Option String
  pub price : F
  pub stock : ℤ
  pub category : String
  pub status : String
  pub seller_id : Option String
  pub created_at : ℕ
  pub updated_at : ℕ

pub record ProductPageResponse (F : Type 0) : Type 0 where
  pub items : List (ProductResponse F)
  pub total_elements : ℕ
  pub page : ℤ
  pub size : ℤ

-- `string(status)`
abbrev pub product_status_text : ProductStatus → String
product_status_text product_active = "ACTIVE"
product_status_text product_inactive = "INACTIVE"
product_status_text product_archived = "ARCHIVED"
product_status_text (Domain.ProductStatus.other s) = s

module _ {F : Type 0} (env : Env F) (api : Api) where
  abbrev pub map_product_to_response : Product F → ProductResponse F
  map_product_to_response p = record {
    id = api.uuid_text p.id;
    name = p.name;
    description = p.description;
    price = env.double.single p.price;
    stock = p.stock;
    category = p.category;
    status = product_status_text p.status;
    seller_id = optional_text api p.seller_id;
    created_at = p.created_at;
    updated_at = p.updated_at;
  }

  abbrev pub page_response : ProductPage F → ProductPageResponse F
  page_response p = record {
    items = map map_product_to_response p.items;
    total_elements = p.total_elements;
    page = p.page;
    size = p.size;
  }
