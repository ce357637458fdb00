-- ===== src/Server/History.antt =====
-- Histories of requests to the server, and the books that they keep.
pub mod RateLimit
use soa_hw.Prelude.{ℕ, ◌≡◌, refl, String, Option, List, arith}
use soa_hw.Prelude.Int.{ℤ}
use soa_hw.Domain.{User, UserRole, Product}
use soa_hw.Domain.Promo.{PromoCode}
use soa_hw.Store.{Env, Db, World}
use soa_hw.Store.Action.{ok}
use soa_hw.Store.Outcome.{Ends-both}
use soa_hw.Store.Keeps.{
  Keeps, Keeps-pure, Keeps-bind, Keeps-on_error, Keeps-or_raise, Keeps-exec, Keeps-Ends,
  Keeps-time_now, Keeps-uuid_new,
}
use soa_hw.Http.Reply.{Api}
use soa_hw.Users.Service as Users
use soa_hw.Users.Service.{Crypto, Config, hash_password}
use soa_hw.Users.Repository as UserRows
use soa_hw.Products.Service as Products
use soa_hw.Products.Repository as ProductRows
use soa_hw.Promos.Service as Promos
use soa_hw.Promos.Repository as PromoRows
use soa_hw.Orders.Service as Orders
use soa_hw.Orders.Service.{OrderItemRequest}
use soa_hw.Orders.Inventory.Statements.{SameBooks}
use soa_hw.Orders.Redemptions.Create.{create-Redeems}
use soa_hw.Orders.Redemptions.Change.{update-Keeps, cancel-Releases}
use soa_hw.Orders.Effects.Create.{create_places}
use soa_hw.Orders.Effects.Change.{update_replaces, cancel_cancels}
use soa_hw.Orders.Books.{IsBooked}
use soa_hw.Orders.Books.Calls.{create-IsBooked, update-IsBooked, cancel-IsBooked}
use soa_hw.Orders.Books.Codes.{SameBooks-IsBooked, insert_promo-IsBooked, update_promo-IsBooked}
use soa_hw.Orders.Books.Forget.{delete_promo-IsBooked}
use soa_hw.Server.Config.{Settings}
use soa_hw.Server.Router.{Endpoint, users_config, dispatch}
use soa_hw.Server.Router.Keeps.{Calls, dispatch-Keeps}
use soa_hw.Server.Router.Calls.{Laws, all_calls}

module _ {F : Type 0} (c : Crypto) (s : Settings) (api : Api)
    (sort : ℕ → List (Product F) → List (Product F)) (scan : String → Option ℤ) where
  -- Requests to the server one after the other, each with its own answers from the outside world.
  pub data History : World F → World F → Type 0 where
    idle : {w : World F} → History w w
    serve :
        {w v : World F} (env : Env F) (e : Endpoint F) (auth_header : String)
        → History (dispatch c s env api sort scan e auth_header w).1 v
        → History w v

  -- What the calls keep, every history keeps.
  pub history-Keeps :
      (R : Db F → Type 0)
      → ((env : Env F) → Laws env R)
      → {w v : World F} → History w v
      → R w.db
      → R v.db
  history-Keeps R laws idle h = h
  history-Keeps R laws (serve {w = w} env e auth_header rest) h = history-Keeps R laws rest (
      (dispatch-Keeps R c s env api sort scan (all_calls c (users_config s) env R (laws env)) e
          auth_header).run
        w h)

module _ {F : Type 0} (env : Env F) where
  create_order-IsBooked :
      (minutes : ℤ) (user_id : ℕ) (requests : List OrderItemRequest) (code : Option String)
      → Keeps IsBooked (Orders.create env minutes user_id requests code)
  create_order-IsBooked minutes user_id requests code =
      Keeps-Ends _ _ _
        (λ w.
          Ends-both w.db _ _ _ (create_places env minutes user_id requests code w)
            (create-Redeems env minutes user_id requests code w))
        (λ w r w' b (q, codes).
          create-IsBooked w.db w'.db env minutes user_id requests code r b q.0 q.1 codes.0)

  update_order-IsBooked :
      (id user_id : ℕ) (requests : List OrderItemRequest)
      → Keeps IsBooked (Orders.update env id user_id requests)
  update_order-IsBooked id user_id requests =
      Keeps-Ends _ _ _
        (λ w.
          Ends-both w.db _ _ _ (update_replaces env id user_id requests w)
            (update-Keeps env id user_id requests w))
        (λ w r w' b (q, codes).
          update-IsBooked w.db w'.db id user_id q.0 b env requests r q.1 codes.0)

  cancel_order-IsBooked : (id user_id : ℕ) → Keeps IsBooked (Orders.cancel env id user_id)
  cancel_order-IsBooked id user_id =
      Keeps-Ends _ _ _
        (λ w.
          Ends-both w.db _ _ _ (cancel_cancels env id user_id w) (cancel-Releases env id user_id w))
        (λ w r w' b (q, codes). cancel-IsBooked w.db w'.db id user_id q.0 b env r q.1 q.2 codes.0)

  books : Laws env IsBooked
  books = record {
    frame = SameBooks-IsBooked;
    insert_promo = λ p n d d' unused b e. insert_promo-IsBooked d d' env b p n unused e;
    update_promo = λ p n d d' b e. update_promo-IsBooked d d' env b p n e;
    delete_promo = λ id n d d' b e. delete_promo-IsBooked d id n d' b e;
    create_order = create_order-IsBooked;
    update_order = update_order-IsBooked;
    cancel_order = cancel_order-IsBooked;
  }

-- Every history of requests to the server, one after the other, to whatever endpoint, with whatever
-- token and body, and whether or not calls of the driver fail in between, keeps the books of the shop:
-- identifiers of orders stay unique, no user has two active orders, an order's promo code is in the
-- table, and the uses of each promo code are as many as the orders that have it and are not canceled.
pub history-IsBooked :
    {F : Type 0} (c : Crypto) (s : Settings) (api : Api)
    (sort : ℕ → List (Product F) → List (Product F)) (scan : String → Option ℤ) {w v : World F}
    → History c s api sort scan w v
    → IsBooked w.db
    → IsBooked v.db
history-IsBooked c s api sort scan history b =
    history-Keeps c s api sort scan IsBooked (λ env. books env) history b
