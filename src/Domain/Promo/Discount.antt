-- ===== src/Domain/Promo/Discount.antt =====
-- Bounds on the discount of internal/domain/models.go.
use soa_hw.Prelude.{◌≡◌, Bool, true, false, arith}
use soa_hw.Double.{Double}
use soa_hw.Domain.Promo.{PromoCode, calculate_discount}

-- What the comparison of float64 does: `a < a` never holds, and `≥` can be chained over a number in
-- the middle. `a < b` is false if either is NaN, so over a NaN it could not.
pub record IsOrder {F : Type 0} (d : Double F) (is_number : F → Bool) : Type 0 where
  pub irreflexive : (a : F) → d.ltb a a ≡ false
  pub chained :
      (a b c : F) → is_number b ≡ true → d.ltb a b ≡ false → d.ltb b c ≡ false → d.ltb a c ≡ false

-- If "<" never holds between a value and itself, and "not less" can be chained over a number, as for
-- float64, then the discount is never above the order's total, if the total is at least zero and at
-- least 0.7 times itself, and 0.7 times the total is a number and not NaN.
pub calculate_discount_at_most_total :
    {F : Type 0} (d : Double F) (is_number : F → Bool) (p : PromoCode F) (total : F)
    → IsOrder d is_number
    → is_number (d.mul total d.seven_tenths) ≡ true
    → d.ltb total d.zero ≡ false
    → d.ltb total (d.mul total d.seven_tenths) ≡ false
    → d.ltb total (calculate_discount d p total) ≡ false
unfolding calculate_discount
calculate_discount_at_most_total d is_number p total o number h c = ground (
  arith,
  o.irreflexive total,
  o.chained total (d.mul total d.seven_tenths) (d.div (d.mul total p.discount_value) d.hundred)
      number,
)
