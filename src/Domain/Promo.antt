-- ===== src/Domain/Promo.antt =====
-- Promo codes of internal/domain/models.go.
pub mod Discount
use soa_hw.Prelude.{ℕ, String, Bool, true, false, not, ◌&&◌, ltb, if◌then◌else◌}
use soa_hw.Prelude.Int.{ℤ, ltb_ℤ}
use soa_hw.Double.{Double}

pub data DiscountType : Type 0 where
  discount_percentage discount_fixed_amount : DiscountType
  other : String → DiscountType

-- `p.DiscountType == DiscountPercentage`
abbrev pub is_percentage : DiscountType → Bool
is_percentage discount_percentage = true
is_percentage _ = false

pub record PromoCode (F : Type 0) : Type 0 where
  pub id : ℕ
  pub code : String
  pub discount_type : DiscountType
  pub discount_value : F
  pub min_order_amount : F
  pub max_uses : ℤ
  pub current_uses : ℤ
  pub valid_from : ℕ
  pub valid_until : ℕ
  pub active : Bool

-- `IsValid`, at the time that `time.Now()` returns.
unfoldable pub is_valid : {F : Type 0} → PromoCode F → ℕ → Bool
is_valid p now =
    p.active
    && ltb_ℤ p.current_uses p.max_uses
    && not (ltb now p.valid_from)
    && not (ltb p.valid_until now)

unfoldable pub calculate_discount : {F : Type 0} → Double F → PromoCode F → F → F
calculate_discount d p order_total =
    if d.ltb order_total p.min_order_amount
    then d.zero
    else if is_percentage p.discount_type
    then (let discount = d.div (d.mul order_total p.discount_value) d.hundred in
        let max_discount = d.mul order_total d.seven_tenths in
        if d.ltb max_discount discount then order_total else discount)
    else if d.ltb order_total p.discount_value
    then order_total
    else p.discount_value
