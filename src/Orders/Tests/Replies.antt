-- ===== src/Orders/Tests/Replies.antt =====
-- The theorems on the replies at the inputs of Orders/Tests.
use soa_hw.Prelude.{ℕ, ◌≡◌, refl, none, some, [], ◌∷◌}
use soa_hw.Prelude.Int.{pos}
use soa_hw.Store.{World}
use soa_hw.Store.Action.{Result, ok}
use soa_hw.Store.Outcome.{Ends}
use soa_hw.Fixtures.{api, env}
use soa_hw.Orders.Tests.{start, ordered, the_code}
use soa_hw.Domain.{OrderWithItems}
use soa_hw.Http.Reply.{Api, Reply, refused, created, answered, no_content}
use soa_hw.Orders.Handler.{OrderCreate, OrderUpdate, create_order, update_order, cancel_order}
use soa_hw.Orders.Replies.Update.{UpdateReply, update_order_replies}
use soa_hw.Orders.Replies.{CreateReply, CancelReply, create_order_replies, cancel_order_replies}

abbrev body : OrderCreate
body = record { items = record { product_id = "7"; quantity = pos 3 } ∷ []; promo_code = none }

abbrev status : Result (Reply (OrderWithItems ℕ)) × World ℕ → ℕ
status (ok (refused e), w) = e.http_status
status (ok (created o), w) = 201
status (ok (answered o), w) = 200
status (ok no_content, w) = 204
status (Result.err e, w) = 0

create_order_run : status (create_order env api (pos 5) "1" (some body) start) ≡ 201
unfolding the_code soa_hw.Orders.Handler.create_order soa_hw.Http.Reply.attempt
create_order_run = refl

-- An admin who is not the owner is refused by the service.
cancel_order_run : status (cancel_order env api "2" "ADMIN" "106" ordered) ≡ 400
unfolding the_code soa_hw.Orders.Handler.cancel_order soa_hw.Http.Reply.attempt
    soa_hw.Orders.Service.get_by_id
cancel_order_run = refl

create_order_replies_example :
    Ends start.db
      (CreateReply start.db env api (pos 5) "1" (some body))
      (create_order env api (pos 5) "1" (some body) start)
create_order_replies_example = create_order_replies env api (pos 5) "1" (some body) start

cancel_order_replies_example :
    Ends ordered.db
      (CancelReply ordered.db env api "1" "106")
      (cancel_order env api "1" "USER" "106" ordered)
cancel_order_replies_example = cancel_order_replies env api "1" "USER" "106" ordered

abbrev new_items : OrderUpdate
new_items = record { items = record { product_id = "7"; quantity = pos 5 } ∷ [] }

update_order_run : status (update_order env api "1" "USER" "106" (some new_items) ordered) ≡ 200
unfolding the_code soa_hw.Orders.Handler.update_order soa_hw.Http.Reply.attempt
    soa_hw.Orders.Service.get_by_id
update_order_run = refl

update_order_replies_example :
    Ends ordered.db
      (UpdateReply env api "1" "USER" "106" (some new_items) ordered.db)
      (update_order env api "1" "USER" "106" (some new_items) ordered)
update_order_replies_example =
    update_order_replies env api "1" "USER" "106" (some new_items) ordered
