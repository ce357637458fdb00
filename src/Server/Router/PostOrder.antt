-- ===== src/Server/Router/PostOrder.antt =====
-- POST /orders/ from the Authorization header to the body of the response.
use Prim.Native.String.{◌++◌}
use soa_hw.Prelude.{ℕ, ◌≡◌, refl, ◌⊎◌, inl, inr, String, Option, List}
use soa_hw.Prelude.Int.{ℤ}
use soa_hw.Domain.{Product, OrderWithItems}
use soa_hw.Store.{Env, World}
use soa_hw.Store.Action.{Result, ok, err, proceed, pure, ◌>>=◌, count_call}
use soa_hw.Store.Outcome.{Ends}
use soa_hw.Http.Reply.{Api, Reply, refused, created, answered, no_content}
use soa_hw.Users.Service.{Claims, Crypto, validate_token_at}
use soa_hw.Orders.Handler.{OrderCreate}
use soa_hw.Orders.Response.{map_order_to_response}
use soa_hw.Orders.Replies.{Ordered, CreateReply, create_order_replies}
use soa_hw.Server.Config.{Settings}
use soa_hw.Server.Router.{create_order, Body, order, order_body, map_reply, users_config, dispatch}
use soa_hw.Server.Router.Access.{Treated, handled, unauthorized, registers, reads, dispatch-Treated}

module _ {F : Type 0} (c : Crypto) (s : Settings) (env : Env F) (api : Api)
    (body : Option OrderCreate) (auth_header : String) (start : World F) where
  -- A response with an order: the token names the user, and the order was placed for them.
  pub record Posted (b : Body F) (w : World F) : Type 0 where
    pub bearer : String
    pub is_header : auth_header ≡ "Bearer" ++ " " ++ bearer
    pub claims : Claims
    pub is_valid : validate_token_at c (users_config s) (env.now start.calls) bearer ≡ ok claims
    pub placed : OrderWithItems F
    pub is_body : b ≡ order (map_order_to_response env api placed)
    pub ordered : Ordered env api start.db s.rate_limit_minutes claims.user_id body placed w

  -- 401 or 400, and the tables are as before, or 201 with an order.
  abbrev pub PostReply : Reply (Body F) → World F → Type 0
  PostReply (refused e) w = ((e.http_status ≡ 401) ⊎ (e.http_status ≡ 400)) × (w.db ≡ start.db)
  PostReply (created b) w = Posted b w
  PostReply _ w = ⊥

  module _ (sort : ℕ → List (Product F) → List (Product F)) (scan : String → Option ℤ) where
    posted :
        (bearer : String) (claims : Claims) (q : Result (Reply (OrderWithItems F)) × World F)
        → auth_header ≡ "Bearer" ++ " " ++ bearer
        → validate_token_at c (users_config s) (env.now start.calls) bearer ≡ ok claims
        → Ends start.db (CreateReply start.db env api s.rate_limit_minutes claims.user_id body) q
        → Ends start.db PostReply
            (proceed q (λ r. pure (map_reply (order_body c s env api sort scan) r)))
    unfolding pure
    posted bearer claims (ok (refused e), w) header valid h = (inr h.0, h.1)
    posted bearer claims (ok (created o), w) header valid h = record {
      bearer = bearer;
      is_header = header;
      claims = claims;
      is_valid = valid;
      placed = o;
      is_body = refl;
      ordered = h;
    }
    posted bearer claims (ok (answered o), w) header valid h = absurd h
    posted bearer claims (ok no_content, w) header valid h = absurd h
    posted bearer claims (err e, w) header valid h = h

    treated :
        (r : Result (Reply (Body F)) × World F)
        → Treated c s env api sort scan (create_order body) auth_header start r
        → Ends start.db PostReply r
    unfolding ◌>>=◌
    treated r (handled bearer claims header valid run) = rw run (
        posted bearer claims _ header valid (
          create_order_replies env api s.rate_limit_minutes claims.user_id body (count_call start)))
    treated r (unauthorized error protected unknown is_401 run) = rw run (inl is_401, refl)
    treated r (registers other e) = absurd (cc e)
    treated r (reads public same) = absurd (cc public)

-- POST /orders/ is answered 401 or 400, and leaves the committed tables as they were, or 201 with an
-- order. Then the header was "Bearer", a space and a token, of whatever role, that is valid at the
-- time read, Create has placed an order of the token's user with the items and the promo code of the
-- body, and the response has the values of this order.
pub post_order_replies :
    {F : Type 0} (c : Crypto) (s : Settings) (env : Env F) (api : Api)
    (sort : ℕ → List (Product F) → List (Product F)) (scan : String → Option ℤ)
    (body : Option OrderCreate) (auth_header : String) (w : World F)
    → Ends w.db
        (PostReply c s env api body auth_header w)
        (dispatch c s env api sort scan (create_order body) auth_header w)
post_order_replies c s env api sort scan body auth_header w =
    treated c s env api body auth_header w sort scan _
      (dispatch-Treated c s env api sort scan (create_order body) auth_header w)
