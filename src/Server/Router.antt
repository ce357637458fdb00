-- ===== src/Server/Router.antt =====
-- The routes of `main` in cmd/server/main.go, with the authentication middleware and the handlers
-- behind them. A request is given as the endpoint that chi finds, with the values that its handler
-- reads: the `id` of the path, the parameters of the query and the decoded body.
pub mod Access
pub mod Keeps
pub mod Calls
pub mod PostOrder
use soa_hw.Prelude.{ℕ, String, Bool, true, false, Option, none, List, if◌then◌else◌}
use soa_hw.Prelude.Int.{ℤ}
use soa_hw.Domain.{Product, OrderWithItems}
use soa_hw.Domain.Promo.{PromoCode}
use soa_hw.Store.{Env}
use soa_hw.Store.Action.{Action, pure, time_now, ◌>>=◌}
use soa_hw.Http.Reply.{Api, Reply, refused, created, answered, no_content}
use soa_hw.Http.Auth.{auth_middleware, get_user_id, get_user_role}
use soa_hw.Http.Errors.{AppError}
use soa_hw.Users.Service.{Claims, Crypto, Config, validate_token_at}
use soa_hw.Users.Handler as Users
use soa_hw.Users.Handler.{RegisterRequest, LoginRequest, RefreshRequest, AuthResponse}
use soa_hw.Products.Handler as Products
use soa_hw.Products.Handler.{ProductCreate, ProductUpdate, ProductPage}
use soa_hw.Orders.Handler as Orders
use soa_hw.Orders.Handler.{OrderCreate, OrderUpdate}
use soa_hw.Promos.Handler as Promos
use soa_hw.Promos.Handler.{PromoCodeCreate, PromoCodeUpdate}
use soa_hw.Products.Response.{
  ProductResponse, ProductPageResponse, map_product_to_response, page_response,
}
use soa_hw.Orders.Response.{OrderResponse, map_order_to_response}
use soa_hw.Promos.Response.{PromoCodeResponse, map_promo_to_response}
use soa_hw.Server.Config.{Settings}

pub data Endpoint (F : Type 0) : Type 0 where
  -- POST /auth/register, /auth/login, /auth/refresh
  register : Option RegisterRequest → Endpoint F
  login : Option LoginRequest → Endpoint F
  refresh : Option RefreshRequest → Endpoint F
  -- GET /products/ with page, size, category and status, GET /products/{id}
  list_products : String → String → String → String → Endpoint F
  get_product : String → Endpoint F
  -- POST /products/, PUT and DELETE /products/{id}
  create_product : Option (ProductCreate F) → Endpoint F
  update_product : String → Option (ProductUpdate F) → Endpoint F
  delete_product : String → Endpoint F
  -- POST /orders/, GET and PUT /orders/{id}, POST /orders/{id}/cancel
  create_order : Option OrderCreate → Endpoint F
  get_order : String → Endpoint F
  update_order : String → Option OrderUpdate → Endpoint F
  cancel_order : String → Endpoint F
  -- POST /promo-codes/, GET, PUT and DELETE /promo-codes/{id}
  create_promo_code : Option (PromoCodeCreate F) → Endpoint F
  get_promo_code : String → Endpoint F
  update_promo_code : String → Option (PromoCodeUpdate F) → Endpoint F
  delete_promo_code : String → Endpoint F

-- Whether AuthMiddleware is in front of the handler.
abbrev pub is_protected : {F : Type 0} → Endpoint F → Bool
is_protected (register body) = false
is_protected (login body) = false
is_protected (refresh body) = false
is_protected (list_products page size category status) = false
is_protected (get_product id) = false
is_protected _ = true

-- The body of a successful reply.
pub data Body (F : Type 0) : Type 0 where
  auth : AuthResponse → Body F
  product : ProductResponse F → Body F
  product_page : ProductPageResponse F → Body F
  order : OrderResponse F → Body F
  promo : PromoCodeResponse F → Body F

abbrev pub map_reply : {A B : Type 0} → (A → B) → Reply A → Reply B
map_reply f (refused e) = refused e
map_reply f (created a) = created (f a)
map_reply f (answered a) = answered (f a)
map_reply f no_content = no_content

abbrev pub replying : {F A B : Type 0} → (A → B) → Action F (Reply A) → Action F (Reply B)
replying f m = m >>= λ r. pure (map_reply f r)

-- users.NewService
abbrev pub users_config : Settings → Config
users_config s = record {
  jwt_secret = s.jwt_secret;
  access_expiry = s.access_expiry;
  refresh_expiry = s.refresh_expiry;
}

module _ {F : Type 0} (c : Crypto) (s : Settings) (env : Env F) (api : Api)
    (sort : ℕ → List (Product F) → List (Product F)) (scan : String → Option ℤ) where
  abbrev pub product_body : Product F → Body F
  product_body p = product (map_product_to_response env api p)

  abbrev pub page_body : ProductPage F → Body F
  page_body p = product_page (page_response env api p)

  abbrev pub order_body : OrderWithItems F → Body F
  order_body o = order (map_order_to_response env api o)

  abbrev pub promo_body : PromoCode F → Body F
  promo_body p = promo (map_promo_to_response env api p)

  abbrev pub handle : Endpoint F → Option Claims → Action F (Reply (Body F))
  handle (register body) ctx = replying auth (Users.register c (users_config s) env api body)
  handle (login body) ctx = replying auth (Users.login c (users_config s) env api body)
  handle (refresh body) ctx = replying auth (Users.refresh c (users_config s) env api body)
  handle (list_products page size category status) ctx =
      replying page_body (Products.list_products env api sort scan page size category status)
  handle (get_product id) ctx = replying product_body (Products.get_product env api id)
  handle (create_product body) ctx =
      replying product_body
        (Products.create_product env api (get_user_id ctx) (get_user_role ctx) body)
  handle (update_product id body) ctx =
      replying product_body
        (Products.update_product env api (get_user_id ctx) (get_user_role ctx) id body)
  handle (delete_product id) ctx =
      replying product_body
        (Products.delete_product env api (get_user_id ctx) (get_user_role ctx) id)
  handle (create_order body) ctx =
      replying order_body (Orders.create_order env api s.rate_limit_minutes (get_user_id ctx) body)
  handle (get_order id) ctx =
      replying order_body (Orders.get_order env api (get_user_id ctx) (get_user_role ctx) id)
  handle (update_order id body) ctx =
      replying order_body
        (Orders.update_order env api (get_user_id ctx) (get_user_role ctx) id body)
  handle (cancel_order id) ctx =
      replying order_body (Orders.cancel_order env api (get_user_id ctx) (get_user_role ctx) id)
  handle (create_promo_code body) ctx =
      replying promo_body (Promos.create_promo_code env api (get_user_role ctx) body)
  handle (get_promo_code id) ctx =
      replying promo_body (Promos.get_promo_code env api (get_user_role ctx) id)
  handle (update_promo_code id body) ctx =
      replying promo_body (Promos.update_promo_code env api (get_user_role ctx) id body)
  handle (delete_promo_code id) ctx =
      replying promo_body (Promos.delete_promo_code env api (get_user_role ctx) id)

  -- The response so far is an action; an error that is written replaces it.
  abbrev pub write_json : AppError String → Action F (Reply (Body F)) → Action F (Reply (Body F))
  write_json e response = pure (refused e)

  -- A request with this Authorization header. The clock for the token is read first.
  unfoldable pub dispatch : Endpoint F → String → Action F (Reply (Body F))
  dispatch endpoint auth_header =
      if is_protected endpoint
      then (do
        now ← time_now env
        auth_middleware write_json (validate_token_at c (users_config s) now)
            (λ claims response. handle endpoint claims) auth_header (pure no_content))
      else handle endpoint none
