-- ===== src/Domain/Tests.antt =====
-- The order state machine at concrete statuses, and a discount with natural numbers for float64.
use soa_hw.Prelude.{refl, inl}
use soa_hw.Domain.Status.{created, payment_pending, paid, shipped, completed, can_transition_to}
use soa_hw.Domain.Status.Graph.{
  IsPaidFor, ◌⟶*◌, ◌⟶◌, next, here, can_transition_to_iff, no_return, paid_never_canceled,
}
use soa_hw.Prelude.{◌≡◌, true, false, ◌↔◌, ℕ, ltb, arith}
use soa_hw.Prelude.Int.{pos}
use soa_hw.Fixtures.{cents}
use soa_hw.Domain.Promo.{PromoCode, discount_percentage, calculate_discount}
use soa_hw.Domain.Promo.Discount.{IsOrder, calculate_discount_at_most_total}

can_transition_to_iff_example : (can_transition_to paid shipped ≡ true) ↔ (paid ⟶ shipped)
can_transition_to_iff_example = can_transition_to_iff paid shipped

no_return_example : ¬ (payment_pending ⟶* created)
unfolding can_transition_to
no_return_example = no_return created payment_pending refl

paid_never_canceled_example : IsPaidFor completed
unfolding can_transition_to
paid_never_canceled_example =
    paid_never_canceled (inl refl) (next {t = shipped} refl (next {t = completed} refl here))

abbrev half_price : PromoCode ℕ
half_price = record {
  id = 9;
  code = "HALF";
  discount_type = discount_percentage;
  discount_value = 5000;
  min_order_amount = 0;
  max_uses = pos 5;
  current_uses = pos 0;
  valid_from = 0;
  valid_until = 1;
  active = true;
}

cents-IsOrder : IsOrder cents (λ a. true)
cents-IsOrder = record {
  irreflexive = λ a. ground arith;
  chained = λ a b c number h k. ground arith;
}

calculate_discount_at_most_total_example : ltb 750 (calculate_discount cents half_price 750) ≡ false
calculate_discount_at_most_total_example =
    calculate_discount_at_most_total cents (λ a. true) half_price 750 cents-IsOrder refl refl refl
