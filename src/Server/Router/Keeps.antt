-- ===== src/Server/Router/Keeps.antt =====
-- A property of the committed tables that each writing call of a service keeps is kept by every request.
use soa_hw.Prelude.{ℕ, String, Option, none, some, List, inl, inr}
use soa_hw.Prelude.Int.{ℤ}
use soa_hw.Domain.{UserRole, Product}
use soa_hw.Domain.Promo.{PromoCode}
use soa_hw.Store.{Env, Db}
use soa_hw.Store.Action.{Action, pure}
use soa_hw.Store.Outcome.{Triple-weaken}
use soa_hw.Store.Keeps.{Keeps, Keeps-pure, Keeps-bind, Keeps-if, Keeps-reads, Keeps-time_now}
use soa_hw.Http.Auth.{auth_middleware, auth_middleware_cases}
use soa_hw.Http.Reply.{Api, Reply, no_content}
use soa_hw.Http.Reply.Keeps.{Keeps-unless, Keeps-call, Keeps-reply}
use soa_hw.Users.Service as Users
use soa_hw.Users.Service.{Claims, Crypto, Config, validate_token_at}
use soa_hw.Users.Handler.{register}
use soa_hw.Products.Service as Products
use soa_hw.Products.Handler.{create_product, update_product, delete_product}
use soa_hw.Promos.Service as Promos
use soa_hw.Promos.Handler.{create_promo_code, get_promo_code, update_promo_code, delete_promo_code}
use soa_hw.Promos.Access.Done as Codes
use soa_hw.Orders.Service as Orders
use soa_hw.Orders.Service.{OrderItemRequest}
use soa_hw.Orders.Replies as Replies
use soa_hw.Orders.Handler.{create_order, get_order, update_order, cancel_order}
use soa_hw.Server.Config.{Settings}
use soa_hw.Server.Router
use soa_hw.Server.Router.{
  Endpoint, is_protected, Body, replying, write_json, users_config, handle, dispatch,
}
use soa_hw.Server.Router.Access.{
  get_by_id-Reads, login-Reads, handler_login-Reads, handler_refresh-Reads, get_product-Reads,
  list_products-Reads,
}

-- The calls of the services that write.
pub record Calls {F : Type 0} (c : Crypto) (config : Config) (env : Env F) (R : Db F → Type 0)
    : Type 0 where
  pub register :
      (email password : String) (role : UserRole)
      → Keeps R (Users.register c config env email password role)
  pub create_product : (p : Product F) → Keeps R (Products.create env p)
  pub update_product : (p : Product F) → Keeps R (Products.update env p)
  pub delete_product : (id : ℕ) → Keeps R (Products.delete env id)
  pub create_promo_code : (p : PromoCode F) → Keeps R (Promos.create env p)
  pub update_promo_code : (p : PromoCode F) → Keeps R (Promos.update env p)
  pub delete_promo_code : (id : ℕ) → Keeps R (Promos.delete env id)
  pub create_order :
      (minutes : ℤ) (user_id : ℕ) (requests : List OrderItemRequest) (code : Option String)
      → Keeps R (Orders.create env minutes user_id requests code)
  pub update_order :
      (id user_id : ℕ) (requests : List OrderItemRequest)
      → Keeps R (Orders.update env id user_id requests)
  pub cancel_order : (id user_id : ℕ) → Keeps R (Orders.cancel env id user_id)

module _ {F : Type 0} (R : Db F → Type 0) (c : Crypto) (env : Env F) (api : Api) where
  replying-Keeps :
      {A : Type 0} (f : A → Body F) {m : Action F (Reply A)} → Keeps R m → Keeps R (replying f m)
  replying-Keeps f k = Keeps-bind R k λ r. Keeps-pure R _

  product-Keeps : (id : ℕ) → Keeps R (Products.get_by_id env id)
  product-Keeps id = Keeps-reads R λ db. get_by_id-Reads db env api id

  order-Keeps : (id : ℕ) → Keeps R (Orders.get_by_id env id)
  order-Keeps id =
      Keeps-reads R
        λ db. Triple-weaken (Replies.get_by_id-Triple db env id) (λ w p. p) (λ o w p. p.0)

  promo-Keeps : (id : ℕ) → Keeps R (Promos.get_by_id env id)
  promo-Keeps id =
      Keeps-reads R
        λ db. Triple-weaken (Codes.get_by_id-Triple env api "" db id) (λ w p. p) (λ o w p. p.0)

  module _ (config : Config) (calls : Calls c config env R) where
    register-Keeps : (body : _) → Keeps R (register c config env api body)
    unfolding register
    register-Keeps body = Keeps-unless R _ body λ req.
        Keeps-call R _ (calls.register req.email req.password _) λ user.
          Keeps-call R _
            (Keeps-reads R λ db. login-Reads db c config env api req.email req.password)
            λ t. Keeps-pure R _

    create_product-Keeps :
        (user_id role : String) (body : _) → Keeps R (create_product env api user_id role body)
    unfolding create_product
    create_product-Keeps user_id role body = Keeps-if R _ (Keeps-pure R _) (
        Keeps-unless R _ body λ req.
          Keeps-unless R _ (api.parse_uuid user_id)
            λ seller. Keeps-call R _ (calls.create_product _) λ p. Keeps-pure R _)

    update_product-Keeps :
        (user_id role id_text : String) (body : _)
        → Keeps R (update_product env api user_id role id_text body)
    unfolding update_product
    update_product-Keeps user_id role id_text body = Keeps-unless R _ (api.parse_uuid id_text) λ id.
        Keeps-call R _ (product-Keeps id) λ p. Keeps-if R _ (Keeps-pure R _) (
          Keeps-unless R _ body λ req. Keeps-call R _ (calls.update_product _) λ p'. Keeps-pure R _)

    delete_product-Keeps :
        (user_id role id_text : String) → Keeps R (delete_product env api user_id role id_text)
    unfolding delete_product
    delete_product-Keeps user_id role id_text = Keeps-unless R _ (api.parse_uuid id_text) λ id.
        Keeps-call R _ (product-Keeps id) λ p.
          Keeps-if R _ (Keeps-pure R _)
            (Keeps-call R _ (calls.delete_product id) λ p'. Keeps-pure R _)

    create_promo_code-Keeps :
        (role : String) (body : _) → Keeps R (create_promo_code env api role body)
    unfolding create_promo_code
    create_promo_code-Keeps role body = Keeps-if R _ (Keeps-pure R _) (
        Keeps-unless R _ body λ req. Keeps-call R _ (calls.create_promo_code _) λ p. Keeps-pure R _)

    get_promo_code-Keeps : (role id_text : String) → Keeps R (get_promo_code env api role id_text)
    unfolding get_promo_code
    get_promo_code-Keeps role id_text = Keeps-if R _ (Keeps-pure R _) (
        Keeps-unless R _ (api.parse_uuid id_text)
          λ id. Keeps-call R _ (promo-Keeps id) λ p. Keeps-pure R _)

    update_promo_code-Keeps :
        (role id_text : String) (body : _) → Keeps R (update_promo_code env api role id_text body)
    unfolding update_promo_code
    update_promo_code-Keeps role id_text body = Keeps-if R _ (Keeps-pure R _) (
        Keeps-unless R _ (api.parse_uuid id_text) λ id. Keeps-call R _ (promo-Keeps id) λ p.
          Keeps-unless R _ body
            λ req. Keeps-call R _ (calls.update_promo_code _) λ _. Keeps-pure R _)

    delete_promo_code-Keeps :
        (role id_text : String) → Keeps R (delete_promo_code env api role id_text)
    unfolding delete_promo_code
    delete_promo_code-Keeps role id_text = Keeps-if R _ (Keeps-pure R _) (
        Keeps-unless R _ (api.parse_uuid id_text)
          λ id. Keeps-call R _ (calls.delete_promo_code id) λ _. Keeps-pure R _)

    create_order-Keeps :
        (minutes : ℤ) (user_id : String) (body : _)
        → Keeps R (create_order env api minutes user_id body)
    unfolding create_order
    create_order-Keeps minutes user_id body = Keeps-unless R _ (api.parse_uuid user_id) λ user.
        Keeps-unless R _ body λ req.
          Keeps-unless R _ _
            λ items. Keeps-reply R _ (calls.create_order minutes user items req.promo_code)

    get_order-Keeps :
        (user_id role id_text : String) → Keeps R (get_order env api user_id role id_text)
    unfolding get_order
    get_order-Keeps user_id role id_text =
        Keeps-unless R _ (api.parse_uuid id_text)
          λ id. Keeps-call R _ (order-Keeps id) λ o. Keeps-if R _ (Keeps-pure R _) (Keeps-pure R _)

    update_order-Keeps :
        (user_id role id_text : String) (body : _)
        → Keeps R (update_order env api user_id role id_text body)
    unfolding update_order
    update_order-Keeps user_id role id_text body = Keeps-unless R _ (api.parse_uuid id_text) λ id.
        Keeps-unless R _ (api.parse_uuid user_id) λ user. Keeps-unless R _ body λ req.
          Keeps-call R _ (order-Keeps id) λ o.
            Keeps-if R _ (Keeps-pure R _)
              (Keeps-unless R _ _ λ items. Keeps-reply R _ (calls.update_order id user items))

    cancel_order-Keeps :
        (user_id role id_text : String) → Keeps R (cancel_order env api user_id role id_text)
    unfolding cancel_order
    cancel_order-Keeps user_id role id_text = Keeps-unless R _ (api.parse_uuid id_text) λ id.
        Keeps-unless R _ (api.parse_uuid user_id) λ user.
          Keeps-call R _ (order-Keeps id)
            λ o. Keeps-if R _ (Keeps-pure R _) (Keeps-reply R _ (calls.cancel_order id user))

module _ {F : Type 0} (R : Db F → Type 0) (c : Crypto) (s : Settings) (env : Env F) (api : Api)
    (sort : ℕ → List (Product F) → List (Product F)) (scan : String → Option ℤ)
    (calls : Calls c (users_config s) env R) where
  handle-Keeps :
      (e : Endpoint F) (ctx : Option Claims) → Keeps R (handle c s env api sort scan e ctx)
  handle-Keeps (Router.register body) ctx =
      replying-Keeps R c env api _ (register-Keeps R c env api (users_config s) calls body)
  handle-Keeps (Router.login body) ctx =
      replying-Keeps R c env api _
        (Keeps-reads R λ db. handler_login-Reads db c (users_config s) env api body)
  handle-Keeps (Router.refresh body) ctx =
      replying-Keeps R c env api _
        (Keeps-reads R λ db. handler_refresh-Reads db c (users_config s) env api body)
  handle-Keeps (Router.list_products page size category status) ctx =
      replying-Keeps R c env api _
        (Keeps-reads R λ db. list_products-Reads db env api sort scan page size category status)
  handle-Keeps (Router.get_product id) ctx =
      replying-Keeps R c env api _ (Keeps-reads R λ db. get_product-Reads db env api id)
  handle-Keeps (Router.create_product body) ctx =
      replying-Keeps R c env api _
        (create_product-Keeps R c env api (users_config s) calls _ _ body)
  handle-Keeps (Router.update_product id body) ctx =
      replying-Keeps R c env api _
        (update_product-Keeps R c env api (users_config s) calls _ _ id body)
  handle-Keeps (Router.delete_product id) ctx =
      replying-Keeps R c env api _ (delete_product-Keeps R c env api (users_config s) calls _ _ id)
  handle-Keeps (Router.create_order body) ctx =
      replying-Keeps R c env api _ (create_order-Keeps R c env api (users_config s) calls _ _ body)
  handle-Keeps (Router.get_order id) ctx =
      replying-Keeps R c env api _ (get_order-Keeps R c env api (users_config s) calls _ _ id)
  handle-Keeps (Router.update_order id body) ctx =
      replying-Keeps R c env api _
        (update_order-Keeps R c env api (users_config s) calls _ _ id body)
  handle-Keeps (Router.cancel_order id) ctx =
      replying-Keeps R c env api _ (cancel_order-Keeps R c env api (users_config s) calls _ _ id)
  handle-Keeps (Router.create_promo_code body) ctx =
      replying-Keeps R c env api _
        (create_promo_code-Keeps R c env api (users_config s) calls _ body)
  handle-Keeps (Router.get_promo_code id) ctx =
      replying-Keeps R c env api _ (get_promo_code-Keeps R c env api (users_config s) calls _ id)
  handle-Keeps (Router.update_promo_code id body) ctx =
      replying-Keeps R c env api _
        (update_promo_code-Keeps R c env api (users_config s) calls _ id body)
  handle-Keeps (Router.delete_promo_code id) ctx =
      replying-Keeps R c env api _ (delete_promo_code-Keeps R c env api (users_config s) calls _ id)

  -- The middleware runs the handler or writes an error.
  middleware-Keeps :
      (validate : _) (e : Endpoint F) (auth_header : String)
      → Keeps R (
          auth_middleware
            (write_json c s env api sort scan)
            validate
            (λ claims response. handle c s env api sort scan e claims)
            auth_header
            (pure no_content))
  middleware-Keeps validate e auth_header =
      elim (auth_middleware_cases (write_json c s env api sort scan) validate
        (λ claims response. handle c s env api sort scan e claims) auth_header (pure no_content)) [
          | inl (bearer, claims, header, valid, run) ↦ rw run (handle-Keeps e (some claims))
          | inr (_, (error, is_401, run)) ↦ rw run (Keeps-pure R _)
        ]

  pub dispatch-Keeps :
      (e : Endpoint F) (auth_header : String)
      → Keeps R (dispatch c s env api sort scan e auth_header)
  unfolding dispatch
  dispatch-Keeps e auth_header =
      Keeps-if R (is_protected e) (Keeps-time_now R env λ now. middleware-Keeps _ e auth_header)
        (handle-Keeps e none)
