-- ===== src/Orders/Handler.antt =====
-- internal/orders/handler.go. The value of a successful reply is the order that mapOrderToResponse
-- converts. No error of the service is an *errors.AppError.
use soa_hw.Prelude.{
  ℕ, Bool, not, ◌&&◌, String, str_eq, Option, none, some, List, [], ◌∷◌, if◌then◌else◌, ◌==◌,
}
use soa_hw.Prelude.Int.{ℤ}
use soa_hw.Domain.{OrderWithItems}
use soa_hw.Store.{Env}
use soa_hw.Store.Action.{Result, ok, err, Action, pure, ◌>>=◌}
use soa_hw.Http.Errors.{new_validation_error, new_order_not_found, new_order_ownership_violation}
use soa_hw.Http.Reply.{
  Api, Reply, refused, created, answered, attempt, unless, unless_err, service_error,
}
use soa_hw.Orders.Service as Service
use soa_hw.Orders.Service.{OrderItemRequest}

-- The fields of the generated types api.OrderCreate and api.OrderUpdate that the handlers read.
pub record ItemBody : Type 0 where
  pub product_id : String
  pub quantity : ℤ

pub record OrderCreate : Type 0 where
  pub items : List ItemBody
  pub promo_code : Option String

pub record OrderUpdate : Type 0 where
  pub items : List ItemBody

abbrev pub one_item : Option ℕ → ℤ → Option (List OrderItemRequest) → Option (List OrderItemRequest)
one_item (some id) quantity (some items) =
    some (record { product_id = id; quantity = quantity } ∷ items)
one_item _ _ _ = none

abbrev pub parse_items : Api → List ItemBody → Option (List OrderItemRequest)
parse_items api [] = some []
parse_items api (i ∷ items) =
    one_item (api.parse_uuid i.product_id) i.quantity (parse_items api items)

module _ {F : Type 0} (env : Env F) (api : Api) where
  -- The reply to the service's result: `f` for an order, 400 for an error.
  abbrev pub reply :
      (OrderWithItems F → Reply (OrderWithItems F))
      → Result (OrderWithItems F)
      → Reply (OrderWithItems F)
  reply f (ok o) = f o
  reply f (err e) = refused (service_error api 400 e)

  -- `role != "ADMIN" && !owner` refuses; else the rest of the handler.
  abbrev pub guard_owner :
      String → Bool → Action F (Reply (OrderWithItems F)) → Action F (Reply (OrderWithItems F))
  guard_owner role owner m =
      if not (str_eq role "ADMIN") && not owner
      then pure (refused new_order_ownership_violation)
      else m

  unfoldable pub create_order :
      ℤ → String → Option OrderCreate → Action F (Reply (OrderWithItems F))
  create_order minutes user_id body =
      unless (new_validation_error "Invalid user ID" []) (api.parse_uuid user_id) λ user.
        unless (new_validation_error "Invalid request body" []) body λ req.
          unless (new_validation_error "Invalid product ID" []) (parse_items api req.items) λ items.
            do
              result ← attempt (Service.create env minutes user items req.promo_code)
              pure (reply created result)

  unfoldable pub get_order : String → String → String → Action F (Reply (OrderWithItems F))
  get_order user_id role id_text =
      unless (new_validation_error "Invalid order ID" []) (api.parse_uuid id_text) λ id. do
        found ← attempt (Service.get_by_id env id)
        unless_err (λ _. new_order_not_found (λ s. s) id_text) found
            λ o.
              guard_owner role (str_eq (api.uuid_text o.order.user_id) user_id) (pure (answered o))

  unfoldable pub update_order :
      String → String → String → Option OrderUpdate → Action F (Reply (OrderWithItems F))
  update_order user_id role id_text body =
      unless (new_validation_error "Invalid order ID" []) (api.parse_uuid id_text) λ id.
        unless (new_validation_error "Invalid user ID" []) (api.parse_uuid user_id) λ user.
          unless (new_validation_error "Invalid request body" []) body λ req. do
            found ← attempt (Service.get_by_id env id)
            unless_err (λ _. new_order_not_found (λ s. s) id_text) found
                λ o. guard_owner role (o.order.user_id == user) (
                  unless (new_validation_error "Invalid product ID" []) (parse_items api req.items)
                    λ items. do
                      result ← attempt (Service.update env id user items)
                      pure (reply answered result))

  unfoldable pub cancel_order : String → String → String → Action F (Reply (OrderWithItems F))
  cancel_order user_id role id_text =
      unless (new_validation_error "Invalid order ID" []) (api.parse_uuid id_text) λ id.
        unless (new_validation_error "Invalid user ID" []) (api.parse_uuid user_id) λ user. do
          found ← attempt (Service.get_by_id env id)
          unless_err (λ _. new_order_not_found (λ s. s) id_text) found
              λ o.
                guard_owner role (o.order.user_id == user)
                  do result ← attempt (Service.cancel env id user); pure (reply answered result)
