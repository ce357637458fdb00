-- ===== src/Promos/Response.antt =====
-- mapPromoToResponse of internal/promos/handler.go, to the generated type api.PromoCodeResponse.
use soa_hw.Prelude.{ℕ, String, Bool}
use soa_hw.Prelude.Int.{ℤ}
use soa_hw.Domain.Promo.{PromoCode, DiscountType, discount_percentage, discount_fixed_amount}
use soa_hw.Domain.Promo
use soa_hw.Store.{Env}
use soa_hw.Http.Reply.{Api}

pub record PromoCodeResponse (F : Type 0) : Type 0 where
  pub id : String
  pub code : String
  pub discount_type : String
  pub discount_value : F
  pub min_order_amount : F
  pub max_uses : ℤ
  pub current_uses : ℤ
  pub valid_from : ℕ
  pub valid_until : ℕ
  pub active : Bool

-- `string(type)`
abbrev pub discount_type_text : DiscountType → String
discount_type_text discount_percentage = "PERCENTAGE"
discount_type_text discount_fixed_amount = "FIXED_AMOUNT"
discount_type_text (Promo.DiscountType.other s) = s

abbrev pub map_promo_to_response : {F : Type 0} → Env F → Api → PromoCode F → PromoCodeResponse F
map_promo_to_response env api p = record {
  id = api.uuid_text p.id;
  code = p.code;
  discount_type = discount_type_text p.discount_type;
  discount_value = env.double.single p.discount_value;
  min_order_amount = env.double.single p.min_order_amount;
  max_uses = p.max_uses;
  current_uses = p.current_uses;
  valid_from = p.valid_from;
  valid_until = p.valid_until;
  active = p.active;
}
