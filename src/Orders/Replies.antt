-- ===== src/Orders/Replies.antt =====
-- What the handlers of internal/orders/handler.go answer, and what a successful answer means.
pub mod Update
use soa_hw.Prelude.{
  ℕ, ◌≡◌, refl, Bool, true, false, not, ◌&&◌, String, str_eq, Option, some, List, [], if◌then◌else◌,
  find,
}
use soa_hw.Prelude.Int.{ℤ}
use soa_hw.Domain.{OrderWithItems}
use soa_hw.Domain.Status.{canceled, can_transition_to}
use soa_hw.Store.{Env, Db, World}
use soa_hw.Store.Action.{Result, ok, err, Action, pure}
use soa_hw.Store.Outcome.{
  Ends, Triple, Outside, Outside-IsSteady, Triple-bind, Triple-bind_fact, Triple-pure,
  Triple-weaken, Triple-return,
}
use soa_hw.Http.Errors.{new_validation_error, new_order_ownership_violation}
use soa_hw.Http.Reply.{Api, Reply, refused, created, answered}
use soa_hw.Http.Reply.Rules.{
  Tried, Triple-attempt, Triple-Ends, Triple-refused, Triple-unless, Triple-unless_err,
}
use soa_hw.Orders.Repository.{has_id}
use soa_hw.Orders.Contract as Orders
use soa_hw.Orders.Service as Service
use soa_hw.Orders.Service.{OrderItemRequest}
use soa_hw.Orders.Effects.Create.{MayPlace, Placed, create_places}
use soa_hw.Orders.Effects.Change.{Owned, Canceled, cancel_cancels}
use soa_hw.Orders.Handler.{OrderCreate, parse_items, reply, guard_owner, create_order, cancel_order}

-- What a successful CreateOrder has done: the body lists these items and this promo code, and the order
-- that the service placed for the user of the request has them.
pub record Ordered {F : Type 0} (env : Env F) (api : Api) (db : Db F) (minutes : ℤ)
    (user_id : String) (body : Option OrderCreate) (o : OrderWithItems F) (w : World F)
    : Type 0 where
  pub user : ℕ
  pub is_user : api.parse_uuid user_id ≡ some user
  pub sent : OrderCreate
  pub is_sent : body ≡ some sent
  pub requests : List OrderItemRequest
  pub are_requests : parse_items api sent.items ≡ some requests
  pub may : MayPlace env db minutes user
  pub placed : Placed env db user requests sent.promo_code o w.db.orders

module _ {F : Type 0} (db : Db F) where
  -- A refusal has status 400 and leaves the tables; a new order comes with status 201.
  abbrev pub CreateReply :
      Env F → Api → ℤ → String → Option OrderCreate → Reply (OrderWithItems F) → World F → Type 0
  CreateReply env api minutes user_id body (refused e) w = (e.http_status ≡ 400) × (w.db ≡ db)
  CreateReply env api minutes user_id body (created o) w =
      Ordered env api db minutes user_id body o w
  CreateReply env api minutes user_id body _ w = ⊥

  -- A refusal leaves the tables; an answer is the canceled order of the user.
  abbrev pub CancelReply :
      Env F → Api → String → String → Reply (OrderWithItems F) → World F → Type 0
  CancelReply env api user_id id_text (refused e) w = w.db ≡ db
  CancelReply env api user_id id_text (answered o) w =
      (user : ℕ) × (id : ℕ) × (api.parse_uuid user_id ≡ some user)
      × (api.parse_uuid id_text ≡ some id)
      × (m : Owned db id user) × (can_transition_to m.order.status canceled ≡ true)
      × Canceled env db id m.order o w.db.orders
  CancelReply env api user_id id_text _ w = ⊥

  pub get_by_id-Triple :
      (env : Env F) (id : ℕ)
      → Triple db
          (Outside db)
          (Service.get_by_id env id)
          (λ o w. Outside db w × (find (has_id id) db.orders ≡ some o.order))
  unfolding Service.get_by_id
  get_by_id-Triple env id =
      Triple-bind_fact (Orders.get_by_id-Triple env id (Outside-IsSteady db)) λ order e.
        Triple-bind_fact (Orders.get_items-Triple env id (Outside-IsSteady db))
          λ items e'. Triple-return _ e

  Triple-guard_owner :
      {R : Reply (OrderWithItems F) → World F → Type 0} (env : Env F) (api : Api) (role : String)
      (owner : Bool) {m : Action F (Reply (OrderWithItems F))}
      → ((w : World F) → w.db ≡ db → R (refused new_order_ownership_violation) w)
      → ((not (str_eq role "ADMIN") && not owner) ≡ false → Triple db (Outside db) m R)
      → Triple db (Outside db) (guard_owner env api role owner m) R
  Triple-guard_owner {R = R} env api role owner {m = m} refuse t =
      go (not (str_eq role "ADMIN") && not owner) t
    where
      go :
          (b : Bool)
          → (b ≡ false → Triple db (Outside db) m R)
          → Triple db (Outside db) (if b then pure (refused new_order_ownership_violation) else m) R
      go true k = Triple-refused db _ refuse
      go false k = k refl

  canceled_reply :
      (env : Env F) (api : Api) (user_id id_text : String) (user id : ℕ)
      (r : Result (OrderWithItems F)) (w : World F)
      → api.parse_uuid user_id ≡ some user
      → api.parse_uuid id_text ≡ some id
      → Tried db
          (λ o w'.
            (m : Owned db id user) × (can_transition_to m.order.status canceled ≡ true)
            × Canceled env db id m.order o w'.db.orders)
          r
          w
      → CancelReply env api user_id id_text (reply env api answered r) w
  canceled_reply env api user_id id_text user id (ok o) w u i t = (user, id, u, i, t.0, t.1, t.2)
  canceled_reply env api user_id id_text user id (err e) w u i t = t

  cancel_order-Triple :
      (env : Env F) (api : Api) (user_id role id_text : String)
      → Triple db
          (Outside db)
          (cancel_order env api user_id role id_text)
          (CancelReply env api user_id id_text)
  unfolding cancel_order
  cancel_order-Triple env api user_id role id_text =
      Triple-unless db _ _ (λ w same. same)
        λ id i.
          Triple-unless db _ _ (λ w same. same)
            λ user u. Triple-bind (Triple-attempt db _ (get_by_id-Triple env id)) λ found.
              Triple-unless_err db _ found _ (λ e w same. same)
                λ o read.
                  Triple-guard_owner env api role _ (λ w same. same)
                    λ may.
                      (Triple-bind
                        (Triple-attempt db _ (
                          Triple-Ends db
                            (λ d o' w'.
                              (m : Owned d id user) × (can_transition_to m.order.status canceled
                                ≡ true)
                              × Canceled env d id m.order o' w'.db.orders)
                            (cancel_cancels env id user)))
                        λ r.
                          Triple-weaken (Triple-pure _)
                            (λ w t. canceled_reply env api user_id id_text user id r w u i t)
                            (λ a w p. p))

  module _ (env : Env F) (api : Api) (minutes : ℤ) (user_id : String)
      (body : Option OrderCreate) where
    created_reply :
        (user : ℕ) (sent : OrderCreate) (requests : List OrderItemRequest)
        (r : Result (OrderWithItems F)) (w : World F)
        → api.parse_uuid user_id ≡ some user
        → body ≡ some sent
        → parse_items api sent.items ≡ some requests
        → Tried db
            (λ o w'.
              MayPlace env db minutes user
              × Placed env db user requests sent.promo_code o w'.db.orders)
            r
            w
        → CreateReply env api minutes user_id body (reply env api created r) w
    created_reply user sent requests (ok o) w u b i t = record {
      user = user;
      is_user = u;
      sent = sent;
      is_sent = b;
      requests = requests;
      are_requests = i;
      may = t.0;
      placed = t.1;
    }
    created_reply user sent requests (err e) w u b i t = (refl, t)

    create_order-Triple :
        Triple db
          (Outside db)
          (create_order env api minutes user_id body)
          (CreateReply env api minutes user_id body)
    unfolding create_order
    create_order-Triple =
        Triple-unless db _ (api.parse_uuid user_id) (λ w same. (refl, same))
          λ user u.
            Triple-unless db (new_validation_error "Invalid request body" []) body
              (λ w same. (refl, same))
              λ req b.
                Triple-unless db (new_validation_error "Invalid product ID" [])
                  (parse_items api req.items) (λ w same. (refl, same))
                  λ items i.
                    Triple-bind
                      (Triple-attempt db _ (
                        Triple-Ends db
                          (λ d r w'.
                            MayPlace env d minutes user
                            × Placed env d user items req.promo_code r w'.db.orders)
                          (create_places env minutes user items req.promo_code)))
                      λ r.
                        Triple-weaken (Triple-pure _)
                          (λ w t. created_reply user req items r w u b i t) (λ a w p. p)

-- Every refusal of CreateOrder has status 400, whatever the reason, and leaves the committed tables as
-- they were. Every other reply has status 201, and then `Create` has placed an order of the user of the
-- request with the items and the promo code of the body, as the rate limit allowed and with no other
-- active order of the user.
pub create_order_replies :
    {F : Type 0} (env : Env F) (api : Api) (minutes : ℤ) (user_id : String)
    (body : Option OrderCreate) (w : World F)
    → Ends w.db
        (CreateReply w.db env api minutes user_id body)
        (create_order env api minutes user_id body w)
create_order_replies env api minutes user_id body w =
    (create_order-Triple w.db env api minutes user_id body).run w (record { same = refl })

-- CancelOrder answers with an order only if it belongs to the user of the request, an admin included:
-- then its status allowed the cancellation, and it is canceled. Every other reply of CancelOrder is an
-- error and leaves the committed tables as they were.
pub cancel_order_replies :
    {F : Type 0} (env : Env F) (api : Api) (user_id role id_text : String) (w : World F)
    → Ends w.db
        (CancelReply w.db env api user_id id_text)
        (cancel_order env api user_id role id_text w)
cancel_order_replies env api user_id role id_text w =
    (cancel_order-Triple w.db env api user_id role id_text).run w (record { same = refl })
