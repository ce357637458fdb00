-- ===== src/Orders/Effects/Cap.antt =====
-- The cap on percentage discounts, as an order meets it.
use soa_hw.Prelude.{
  ℕ, ◌≡◌, ap, ◌∙◌, inl, inr, true, false, Option, some, find, String, str_eq, List,
}
use soa_hw.Prelude.Int.{ℤ}
use soa_hw.Double.{Double}
use soa_hw.Domain.{OrderWithItems}
use soa_hw.Domain.Promo.{PromoCode, is_percentage, calculate_discount}
use soa_hw.Store.{Env, World}
use soa_hw.Store.Action.{ok}
use soa_hw.Orders.Service.{OrderItemRequest, create}
use soa_hw.Orders.Conservation.Redeem.{Redeemed}
use soa_hw.Orders.Effects.Frames.{total_from}
use soa_hw.Orders.Effects.Create.{Placed, create_places}
use soa_hw.Store.Outcome.{after_ok}

-- The promo code asks for a percentage that is more than 0.7 times the total.
pub record IsOverCap {F : Type 0} (d : Double F) (p : PromoCode F) (total : F) : Type 0 where
  pub percentage : is_percentage p.discount_type ≡ true
  pub over :
      d.ltb (d.mul total d.seven_tenths) (d.div (d.mul total p.discount_value) d.hundred) ≡ true

module _ {F : Type 0} (env : Env F) (code : String) (total : F) (r : F × Option ℕ) where
  calculate_discount-IsOverCap :
      (p : PromoCode F)
      → env.double.ltb total p.min_order_amount ≡ false
      → IsOverCap env.double p total
      → calculate_discount env.double p total ≡ total
  unfolding calculate_discount
  calculate_discount-IsOverCap p h o = rw (h, o.percentage, o.over)

  Redeemed-whole :
      (w : World F) (promo : PromoCode F)
      → Redeemed env w.db code total r
      → find (λ q. str_eq q.code code) w.db.promo_codes ≡ some promo
      → IsOverCap env.double promo total
      → r.0 ≡ total
  Redeemed-whole w promo d found o =
      ap (λ x. x.0) d.result ∙ calculate_discount-IsOverCap d.promo d.enough (rw (same d.found) o)
    where
      same : find (λ q. str_eq q.code code) w.db.promo_codes ≡ some d.promo → d.promo ≡ promo
      same e = cc

-- An order that was created with the code of a percentage above the cap, which 0.7 times the order's
-- sum is, does not get the cap for a discount: its discount is the whole sum, and what is left to pay
-- is the sum minus itself.
pub create_free_above_cap :
    {F : Type 0} (env : Env F) (minutes : ℤ) (user_id : ℕ) (requests : List OrderItemRequest)
    (code : String) (promo : PromoCode F) (w : World F) (r : OrderWithItems F) (w' : World F)
    → create env minutes user_id requests (some code) w ≡ (ok r, w')
    → str_eq code "" ≡ false
    → find (λ q. str_eq q.code code) w.db.promo_codes ≡ some promo
    → IsOverCap env.double promo (total_from env env.double.zero r.items)
    → (r.order.discount_amount ≡ total_from env env.double.zero r.items)
      × (r.order.total_amount
          ≡ env.double.sub
              (total_from env env.double.zero r.items)
              (total_from env env.double.zero r.items))
create_free_above_cap env minutes user_id requests code promo w r w' e nonempty found over =
    (whole, placed.total ∙ ap (env.double.sub (total_from env env.double.zero r.items)) whole)
  where
    placed : Placed env w.db user_id requests (some code) r w'.db.orders
    placed = (after_ok w.db _ _ r w' e (create_places env minutes user_id requests (some code) w)).1

    whole : r.order.discount_amount ≡ total_from env env.double.zero r.items
    whole = elim placed.discount [
      | inl (empty, _) ↦ absurd (cc)
      | inr (_, d) ↦ Redeemed-whole env code _ _ w promo d found over
    ]
