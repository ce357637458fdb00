-- ===== src/Domain.antt =====
-- internal/domain/models.go: the entities. `F` is the type that stands for float64. Identifiers are
-- numbers, since the program only compares them; times are nanoseconds since the epoch.
pub mod Status
pub mod Promo
mod Tests
use soa_hw.Prelude.{ℕ, String, Option, List, Bool, true, false}
use soa_hw.Prelude.Int.{ℤ}
use soa_hw.Domain.Status.{OrderStatus}

-- `other` is any string that is not one of the constants.
pub data UserRole : Type 0 where
  role_user role_seller role_admin : UserRole
  other : String → UserRole

pub record User : Type 0 where
  pub id : ℕ
  pub email : String
  pub password_hash : String
  pub role : UserRole
  pub created_at : ℕ
  pub updated_at : ℕ

pub data ProductStatus : Type 0 where
  product_active product_inactive product_archived : ProductStatus
  other : String → ProductStatus

-- `s == domain.ProductActive`
abbrev pub is_product_active : ProductStatus → Bool
is_product_active product_active = true
is_product_active _ = false

pub record Product (F : Type 0) : Type 0 where
  pub id : ℕ
  pub name : String
  pub description : Option String
  pub price : F
  pub stock : ℤ
  pub category : String
  pub status : ProductStatus
  pub seller_id : Option ℕ
  pub created_at : ℕ
  pub updated_at : ℕ

pub record Order (F : Type 0) : Type 0 where
  pub id : ℕ
  pub user_id : ℕ
  pub status : OrderStatus
  pub promo_code_id : Option ℕ
  pub total_amount : F
  pub discount_amount : F
  pub created_at : ℕ
  pub updated_at : ℕ

pub record OrderItem (F : Type 0) : Type 0 where
  pub id : ℕ
  pub order_id : ℕ
  pub product_id : ℕ
  pub quantity : ℤ
  pub price_at_order : F

pub record OrderWithItems (F : Type 0) : Type 0 where
  pub order : Order F
  pub items : List (OrderItem F)

pub data OperationType : Type 0 where
  operation_create_order operation_update_order : OperationType

-- `a == b` on the two operation types.
abbrev pub operation_eq : OperationType → OperationType → Bool
operation_eq operation_create_order operation_create_order = true
operation_eq operation_update_order operation_update_order = true
operation_eq _ _ = false

pub record UserOperation : Type 0 where
  pub id : ℕ
  pub user_id : ℕ
  pub operation_type : OperationType
  pub created_at : ℕ
