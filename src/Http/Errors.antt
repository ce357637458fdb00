-- ===== src/Http/Errors.antt =====
-- internal/errors/errors.go. `D` is the type of the values in `Details`, interface{} in the source.
use soa_hw.Prelude.{ℕ, String, List, [], ◌∷◌}
use soa_hw.Prelude.Int.{ℤ}

pub data ErrorCode : Type 0 where
  product_not_found product_inactive order_not_found order_limit_exceeded order_has_active :
      ErrorCode
  invalid_state_transition insufficient_stock promo_code_invalid promo_code_min_amount : ErrorCode
  order_ownership_violation validation_error token_expired token_invalid : ErrorCode
  refresh_token_invalid access_denied : ErrorCode

pub record AppError (D : Type 0) : Type 0 where
  pub code : ErrorCode
  pub message : String
  pub details : List (String × D)
  pub http_status : ℕ

module _ {D : Type 0} where
  abbrev pub new_app_error : ErrorCode → String → ℕ → AppError D
  new_app_error code message http_status = record {
    code = code;
    message = message;
    details = [];
    http_status = http_status;
  }

  abbrev pub with_details : List (String × D) → AppError D → AppError D
  with_details details e = record e { details = details }

  abbrev pub new_token_expired : AppError D
  new_token_expired = new_app_error token_expired "Access token has expired" 401

  abbrev pub new_token_invalid : AppError D
  new_token_invalid = new_app_error token_invalid "Invalid access token" 401

  abbrev pub new_access_denied : AppError D
  new_access_denied =
      new_app_error access_denied "Insufficient permissions to access this resource" 403

  abbrev pub new_validation_error : String → List (String × D) → AppError D
  new_validation_error message details =
      with_details details (new_app_error validation_error message 400)

  abbrev pub new_order_ownership_violation : AppError D
  new_order_ownership_violation =
      new_app_error order_ownership_violation "Order belongs to another user" 403

  abbrev pub new_refresh_token_invalid : AppError D
  new_refresh_token_invalid =
      new_app_error refresh_token_invalid "Invalid or expired refresh token" 401

  abbrev pub new_order_has_active : AppError D
  new_order_has_active = new_app_error order_has_active "User already has an active order" 409

  -- `text`, `int` and `float` make a value of the details of a string and of a number, and `rows` of
  -- a list of such maps.
  module _ (text : String → D) where
    abbrev pub new_product_not_found : String → AppError D
    new_product_not_found product_id =
        with_details (("product_id", text product_id) ∷ [])
          (new_app_error product_not_found "Product not found" 404)

    abbrev pub new_product_inactive : String → AppError D
    new_product_inactive product_id =
        with_details (("product_id", text product_id) ∷ [])
          (new_app_error product_inactive "Cannot order inactive product" 409)

    abbrev pub new_order_not_found : String → AppError D
    new_order_not_found order_id =
        with_details (("order_id", text order_id) ∷ [])
          (new_app_error order_not_found "Order not found" 404)

    abbrev pub new_invalid_state_transition : String → String → AppError D
    new_invalid_state_transition from to =
        with_details (("from", text from) ∷ ("to", text to) ∷ [])
          (new_app_error invalid_state_transition "Invalid order status transition" 409)

    abbrev pub new_promo_code_invalid : String → AppError D
    new_promo_code_invalid reason =
        with_details (("reason", text reason) ∷ [])
          (new_app_error promo_code_invalid "Promo code is invalid, expired, or exhausted" 422)

  abbrev pub new_order_limit_exceeded : (ℤ → D) → ℤ → AppError D
  new_order_limit_exceeded int retry_after_seconds =
      with_details (("retry_after_seconds", int retry_after_seconds) ∷ [])
        (new_app_error order_limit_exceeded "Order operation rate limit exceeded" 429)

  abbrev pub new_insufficient_stock :
      (List (List (String × D)) → D) → List (List (String × D)) → AppError D
  new_insufficient_stock rows products =
      with_details (("products", rows products) ∷ [])
        (new_app_error insufficient_stock "Insufficient stock for requested products" 409)

  abbrev pub new_promo_code_min_amount : {F : Type 0} → (F → D) → F → F → AppError D
  new_promo_code_min_amount float min_amount current_amount =
      with_details
        (("min_amount", float min_amount) ∷ ("current_amount", float current_amount) ∷ [])
        (new_app_error promo_code_min_amount "Order amount below minimum for promo code" 422)
