-- ===== src/Promos/Handler.antt =====
-- internal/promos/handler.go. An amount in a body is the float64 that the float32 is converted to, and
-- the value of a successful reply is the promo code that mapPromoToResponse converts.
use soa_hw.Prelude.{ℕ, Bool, true, String, str_eq, Option, [], if◌then◌else◌}
use soa_hw.Prelude.Int.{ℤ, pos}
use soa_hw.Domain.Promo.{PromoCode, DiscountType, discount_percentage, discount_fixed_amount}
use soa_hw.Domain.Promo
use soa_hw.Store.{Env}
use soa_hw.Store.Action.{Action, pure, ◌>>=◌}
use soa_hw.Http.Errors.{AppError, new_app_error, validation_error, new_validation_error}
use soa_hw.Http.Reply.{
  Api, Reply, created, answered, no_content, attempt, unless, unless_err, service_error, deny_if,
  is_no_trader, or_old,
}
use soa_hw.Promos.Service as Service

-- The fields of the generated types that the handlers read.
pub record PromoCodeCreate (F : Type 0) : Type 0 where
  pub code : String
  pub discount_type : String
  pub discount_value : F
  pub min_order_amount : F
  pub max_uses : ℤ
  pub valid_from : ℕ
  pub valid_until : ℕ
  pub active : Option Bool

pub record PromoCodeUpdate (F : Type 0) : Type 0 where
  pub active : Option Bool
  pub discount_value : Option F
  pub min_order_amount : Option F
  pub max_uses : Option ℤ
  pub valid_until : Option ℕ

-- `domain.DiscountType(s)`
abbrev pub discount_type : String → DiscountType
discount_type s =
    if str_eq s "PERCENTAGE"
    then discount_percentage
    else if str_eq s "FIXED_AMOUNT"
    then discount_fixed_amount
    else Promo.DiscountType.other s

-- The promo code of a body; Service.Create sets the identifier.
abbrev pub new_promo : {F : Type 0} → PromoCodeCreate F → PromoCode F
new_promo req = record {
  id = 0;
  code = req.code;
  discount_type = discount_type req.discount_type;
  discount_value = req.discount_value;
  min_order_amount = req.min_order_amount;
  max_uses = req.max_uses;
  current_uses = pos 0;
  valid_from = req.valid_from;
  valid_until = req.valid_until;
  active = or_old req.active true;
}

-- The changes of a body to the promo code that was read.
abbrev pub edit : {F : Type 0} → PromoCodeUpdate F → PromoCode F → PromoCode F
edit req p = record p {
  active = or_old req.active p.active;
  discount_value = or_old req.discount_value p.discount_value;
  min_order_amount = or_old req.min_order_amount p.min_order_amount;
  max_uses = or_old req.max_uses p.max_uses;
  valid_until = or_old req.valid_until p.valid_until;
}

abbrev pub promo_code_not_found : AppError String
promo_code_not_found = new_app_error validation_error "Promo code not found" 404

module _ {F : Type 0} (env : Env F) (api : Api) where
  unfoldable pub create_promo_code :
      String → Option (PromoCodeCreate F) → Action F (Reply (PromoCode F))
  create_promo_code role body = deny_if (is_no_trader role) (
      unless (new_validation_error "Invalid request body" []) body λ req. do
        stored ← attempt (Service.create env (new_promo req))
        unless_err (service_error api 400) stored λ p. pure (created p))

  unfoldable pub get_promo_code : String → String → Action F (Reply (PromoCode F))
  get_promo_code role id_text = deny_if (is_no_trader role) (
      unless (new_validation_error "Invalid promo code ID" []) (api.parse_uuid id_text) λ id. do
        found ← attempt (Service.get_by_id env id)
        unless_err (λ _. promo_code_not_found) found λ p. pure (answered p))

  unfoldable pub update_promo_code :
      String → String → Option (PromoCodeUpdate F) → Action F (Reply (PromoCode F))
  update_promo_code role id_text body = deny_if (is_no_trader role) (
      unless (new_validation_error "Invalid promo code ID" []) (api.parse_uuid id_text) λ id. do
        found ← attempt (Service.get_by_id env id)
        unless_err (λ _. promo_code_not_found) found
            λ p. unless (new_validation_error "Invalid request body" []) body λ req. do
              stored ← attempt (Service.update env (edit req p))
              unless_err (service_error api 400) stored λ _. pure (answered (edit req p)))

  unfoldable pub delete_promo_code : String → String → Action F (Reply (PromoCode F))
  delete_promo_code role id_text = deny_if (is_no_trader role) (
      unless (new_validation_error "Invalid promo code ID" []) (api.parse_uuid id_text) λ id. do
        deleted ← attempt (Service.delete env id)
        unless_err (service_error api 500) deleted λ _. pure no_content)
