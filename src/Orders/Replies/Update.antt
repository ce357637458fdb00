-- ===== src/Orders/Replies/Update.antt =====
-- What UpdateOrder answers.
use soa_hw.Prelude.{ℕ, ◌≡◌, refl, String, Option, some, List, []}
use soa_hw.Domain.{OrderWithItems}
use soa_hw.Store.{Env, Db, World}
use soa_hw.Store.Action.{Result, ok, err}
use soa_hw.Store.Outcome.{Ends, Triple, Outside, Triple-bind, Triple-pure, Triple-weaken}
use soa_hw.Http.Errors.{new_validation_error}
use soa_hw.Http.Reply.{Api, Reply, refused, answered}
use soa_hw.Http.Reply.Rules.{Tried, Triple-attempt, Triple-Ends, Triple-unless, Triple-unless_err}
use soa_hw.Orders.Service.{OrderItemRequest}
use soa_hw.Orders.Effects.Change.{Owned, Replaced, update_replaces}
use soa_hw.Orders.Handler.{OrderUpdate, parse_items, reply, update_order}
use soa_hw.Orders.Replies.{get_by_id-Triple, Triple-guard_owner}

-- What a successful UpdateOrder has done: the body lists these items for an order of the user, and the
-- order has them instead of its old ones.
pub record Updated {F : Type 0} (env : Env F) (api : Api) (db : Db F) (user_id id_text : String)
    (body : Option OrderUpdate) (o : OrderWithItems F) (w : World F) : Type 0 where
  pub user : ℕ
  pub is_user : api.parse_uuid user_id ≡ some user
  pub id : ℕ
  pub is_id : api.parse_uuid id_text ≡ some id
  pub sent : OrderUpdate
  pub is_sent : body ≡ some sent
  pub requests : List OrderItemRequest
  pub are_requests : parse_items api sent.items ≡ some requests
  pub owned : Owned db id user
  pub replaced : Replaced env db id owned.order requests o w.db.orders

module _ {F : Type 0} (env : Env F) (api : Api) (user_id role id_text : String)
    (body : Option OrderUpdate) (db : Db F) where
  abbrev pub UpdateReply : Reply (OrderWithItems F) → World F → Type 0
  UpdateReply (refused e) w = w.db ≡ db
  UpdateReply (answered o) w = Updated env api db user_id id_text body o w
  UpdateReply _ w = ⊥

  updated_reply :
      (user id : ℕ) (sent : OrderUpdate) (requests : List OrderItemRequest)
      (r : Result (OrderWithItems F)) (w : World F)
      → api.parse_uuid user_id ≡ some user
      → api.parse_uuid id_text ≡ some id
      → body ≡ some sent
      → parse_items api sent.items ≡ some requests
      → Tried db
          (λ o w'. (m : Owned db id user) × Replaced env db id m.order requests o w'.db.orders)
          r
          w
      → UpdateReply (reply env api answered r) w
  updated_reply user id sent requests (ok o) w u i s q t = record {
    user = user;
    is_user = u;
    id = id;
    is_id = i;
    sent = sent;
    is_sent = s;
    requests = requests;
    are_requests = q;
    owned = t.0;
    replaced = t.1;
  }
  updated_reply user id sent requests (err e) w u i s q t = t

  update_order-Triple :
      Triple db (Outside db) (update_order env api user_id role id_text body) UpdateReply
  unfolding update_order
  update_order-Triple =
      Triple-unless db _ _ (λ w same. same)
        λ id i.
          Triple-unless db (new_validation_error "Invalid user ID" []) (api.parse_uuid user_id)
            (λ w same. same)
            λ user u.
              Triple-unless db (new_validation_error "Invalid request body" []) body
                (λ w same. same)
                λ sent s. Triple-bind (Triple-attempt db _ (get_by_id-Triple db env id)) λ found.
                  Triple-unless_err db _ found _ (λ e w same. same)
                    λ o read.
                      Triple-guard_owner db env api role _ (λ w same. same)
                        λ may.
                          Triple-unless db (new_validation_error "Invalid product ID" [])
                            (parse_items api sent.items) (λ w same. same)
                            λ requests q.
                              Triple-bind
                                (Triple-attempt db _ (
                                  Triple-Ends db
                                    (λ d r w'.
                                      (m : Owned d id user) × Replaced env d id m.order requests r
                                        w'.db.orders)
                                    (update_replaces env id user requests)))
                                λ r.
                                  Triple-weaken (Triple-pure _)
                                    (λ w t. updated_reply user id sent requests r w u i s q t)
                                    (λ a w p. p)

-- UpdateOrder answers with an order only if the user of the request owns it, an admin included: then
-- its items are those of the body, at the products' prices, its total is their sum, without the
-- discount that stays on it, and its status and promo code are as before. Every other reply is an error
-- and leaves the committed tables as they were.
pub update_order_replies :
    {F : Type 0} (env : Env F) (api : Api) (user_id role id_text : String)
    (body : Option OrderUpdate) (w : World F)
    → Ends w.db
        (UpdateReply env api user_id role id_text body w.db)
        (update_order env api user_id role id_text body w)
update_order_replies env api user_id role id_text body w =
    (update_order-Triple env api user_id role id_text body w.db).run w (record { same = refl })
