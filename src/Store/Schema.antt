-- ===== src/Store/Schema.antt =====
-- The column types and CHECK, UNIQUE and REFERENCES constraints of
-- migrations/000001_init_schema.up.sql, as tests on a row and the tables that it refers to.
use Prim.Native.String.{[], ◌∷◌, count}
use Prim.Native.Char.{code}
use soa_hw.Prelude.{
  ℕ, zero, suc, ◌≡◌, if◌then◌else◌, String, Bool, true, false, not, ◌&&◌, Option, none, some, List,
  ltb, leb, ◌==◌, any, str_eq,
}
use soa_hw.Prelude.Int.{pos, ltb_ℤ, leb_ℤ, is_int4}
use soa_hw.Domain.{User, UserRole, Product, ProductStatus, Order, OrderItem, UserOperation}
use soa_hw.Domain.Status.{OrderStatus}
use soa_hw.Domain.Promo.{PromoCode, DiscountType}
use soa_hw.Store.{Env, Db}

-- VARCHAR(n) refuses a longer text.
abbrev pub fits : ℕ → String → Bool
fits n s = leb (count s) n

-- The first `n` characters, and those after them.
abbrev before : ℕ → String → String
before n [] = []
before zero (c ∷ s) = []
before (suc n) (c ∷ s) = c ∷ before n s

abbrev after : ℕ → String → String
after n [] = []
after zero (c ∷ s) = c ∷ s
after (suc n) (c ∷ s) = after n s

abbrev is_blank : String → Bool
is_blank [] = true
is_blank (c ∷ s) = code c == 32 && is_blank s

-- A text as VARCHAR(n) stores it: what is too long is cut off if it is only spaces. Any other text that
-- is too long is left, and the test on the row refuses it.
unfoldable pub varchar : ℕ → String → String
varchar n s = if fits n s then s else if is_blank (after n s) then before n s else s

abbrev pub varchar_option : ℕ → Option String → Option String
varchar_option n none = none
varchar_option n (some s) = some (varchar n s)

pub varchar-fits : (n : ℕ) (s : String) → fits n s ≡ true → varchar n s ≡ s
unfolding varchar
varchar-fits n s h = rw h

abbrev pub fits_option : ℕ → Option String → Bool
fits_option n none = true
fits_option n (some s) = fits n s

-- The ENUM types.
abbrev is_user_role : UserRole → Bool
is_user_role (UserRole.other s) = false
is_user_role _ = true

abbrev pub is_product_status : ProductStatus → Bool
is_product_status (ProductStatus.other s) = false
is_product_status _ = true

abbrev is_order_status : OrderStatus → Bool
is_order_status (OrderStatus.other s) = false
is_order_status _ = true

abbrev is_discount_type : DiscountType → Bool
is_discount_type (DiscountType.other s) = false
is_discount_type _ = true

-- REFERENCES, where NULL refers to nothing.
abbrev pub refers : {A : Type 0} → (A → ℕ) → Option ℕ → List A → Bool
refers id none rows = true
refers id (some k) rows = any (λ r. id r == k) rows

unfoldable pub user_row : User → Bool
user_row u = fits 255 u.email && fits 255 u.password_hash && is_user_role u.role

module _ {F : Type 0} where
  unfoldable pub product_row : Env F → Product F → Bool
  product_row env p =
      fits 255 p.name
      && fits_option 4000 p.description
      && env.positive p.price
      && is_int4 p.stock
      && leb_ℤ (pos 0) p.stock
      && fits 100 p.category
      && is_product_status p.status

  unfoldable pub promo_row : Env F → PromoCode F → Bool
  promo_row env p =
      fits 20 p.code
      && is_discount_type p.discount_type
      && env.positive p.discount_value
      && env.nonneg p.min_order_amount
      && is_int4 p.max_uses
      && ltb_ℤ (pos 0) p.max_uses
      && is_int4 p.current_uses
      && leb_ℤ (pos 0) p.current_uses
      && ltb p.valid_from p.valid_until
      && leb_ℤ p.current_uses p.max_uses

  unfoldable pub order_row : Env F → Db F → Order F → Bool
  order_row env db o =
      any (λ u. u.id == o.user_id) db.users
      && is_order_status o.status
      && refers (λ (p : PromoCode F). p.id) o.promo_code_id db.promo_codes
      && env.nonneg o.total_amount
      && env.nonneg o.discount_amount

  unfoldable pub order_item_row : Env F → Db F → OrderItem F → Bool
  order_item_row env db i =
      any (λ o. o.id == i.order_id) db.orders
      && any (λ p. p.id == i.product_id) db.products
      && is_int4 i.quantity
      && ltb_ℤ (pos 0) i.quantity
      && env.nonneg i.price_at_order

  unfoldable pub user_operation_row : Db F → UserOperation → Bool
  user_operation_row db o = any (λ u. u.id == o.user_id) db.users

  -- Both are true if the new key is not in the table.
  unfoldable pub fresh_code : PromoCode F → List (PromoCode F) → Bool
  fresh_code p rows = not (any (λ q. str_eq q.code p.code) rows)

unfoldable pub fresh_email : User → List User → Bool
fresh_email u rows = not (any (λ v. str_eq v.email u.email) rows)

abbrev pub fresh_id : {A : Type 0} → (A → ℕ) → A → List A → Bool
fresh_id id r rows = not (any (λ s. id s == id r) rows)
