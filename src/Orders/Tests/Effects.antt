-- ===== src/Orders/Tests/Effects.antt =====
-- The theorems on the effects of the service at the inputs of Orders/Tests, and with a promo code of
-- 80 percent.
use soa_hw.Prelude.{
  ℕ, ◌≤◌, ◌<◌, ◌≡◌, refl, true, false, none, some, List, [], ◌∷◌, ◌==◌, find, arith,
}
use soa_hw.Prelude.Int.{pos}
use soa_hw.Domain.{OrderWithItems}
use soa_hw.Domain.Status.{canceled, created, can_transition_to}
use soa_hw.Domain.Promo.{PromoCode, discount_percentage}
use soa_hw.Store.{World}
use soa_hw.Store.Action.{ok}
use soa_hw.Store.Outcome.{Ends}
use soa_hw.Orders.Service.{create, update, cancel}
use soa_hw.Orders.Tests.{start, three_lamps, ordered, the_code}
use soa_hw.Fixtures.{env}
use soa_hw.Orders.Effects.Frames.{total_from}
use soa_hw.Orders.Effects.Create.{MayPlace, Placed, create_places}
use soa_hw.Orders.Effects.Change.{Owned, Replaced, Canceled, update_replaces, cancel_cancels}
use soa_hw.Orders.Effects.Once.{IsRefused, IsVoid, canceled_once}
use soa_hw.Orders.Effects.Active.{
  IsOrderly, creates, updates, cancels, idle, next, requests-IsOrderly,
}
use soa_hw.Orders.Effects.Cap.{create_free_above_cap}

create_places_example :
    Ends start.db
      (λ r w'.
        MayPlace env start.db (pos 5) 1 × Placed env start.db 1 three_lamps none r w'.db.orders)
      (create env (pos 5) 1 three_lamps none start)
create_places_example = create_places env (pos 5) 1 three_lamps none start

update_replaces_example :
    Ends ordered.db
      (λ r w'.
        (m : Owned ordered.db 106 1) × Replaced env ordered.db 106 m.order three_lamps r
          w'.db.orders)
      (update env 106 1 three_lamps ordered)
update_replaces_example = update_replaces env 106 1 three_lamps ordered

cancel_cancels_example :
    Ends ordered.db
      (λ r w'.
        (m : Owned ordered.db 106 1) × (can_transition_to m.order.status canceled ≡ true)
        × Canceled env ordered.db 106 m.order r w'.db.orders)
      (cancel env 106 1 ordered)
cancel_cancels_example = cancel_cancels env 106 1 ordered

abbrev the_canceled : OrderWithItems ℕ
the_canceled = record {
  order = record {
    id = 106;
    user_id = 1;
    status = canceled;
    promo_code_id = none;
    total_amount = 750;
    discount_amount = 0;
    created_at = 1_000_000_000_007;
    updated_at = 1_000_000_000_019;
  };
  items =
      record { id = 105; order_id = 106; product_id = 7; quantity = pos 3; price_at_order = 250 }
      ∷ [];
}

-- The first call cancels the order.
cancel_succeeds : cancel env 106 1 ordered ≡ (ok the_canceled, (cancel env 106 1 ordered).1)
unfolding the_code
cancel_succeeds = refl

-- The owner updates the canceled order, and then cancels again.
canceled_once_example :
    IsVoid 106 (update env 106 1 [] (cancel env 106 1 ordered).1).1.db.orders
    × IsRefused (cancel env 106 1 (update env 106 1 [] (cancel env 106 1 ordered).1).1)
canceled_once_example =
    canceled_once env 106 1 ordered the_canceled (cancel env 106 1 ordered).1
      (update env 106 1 [] (cancel env 106 1 ordered).1).1 cancel_succeeds
      (next (updates env 106 1 []) idle) env 1

start-IsOrderly : IsOrderly start.db.orders
start-IsOrderly = record { unique = λ id. ground arith; one_active = λ user_id. ground arith }

requests-IsOrderly_example :
    IsOrderly (cancel env 106 1 (create env (pos 5) 1 three_lamps none start).1).1.db.orders
requests-IsOrderly_example =
    requests-IsOrderly
      (next (creates env (pos 5) 1 three_lamps none) (next (cancels env 106 1) idle))
      start-IsOrderly

abbrev eighty_percent : PromoCode ℕ
eighty_percent = record {
  id = 9;
  code = "BIG";
  discount_type = discount_percentage;
  discount_value = 8000;
  min_order_amount = 0;
  max_uses = pos 5;
  current_uses = pos 0;
  valid_from = 0;
  valid_until = 2_000_000_000_000;
  active = true;
}

abbrev with_code : World ℕ
with_code = record start { db = record start.db { promo_codes = eighty_percent ∷ [] } }

abbrev free_order : OrderWithItems ℕ
free_order = record {
  order = record {
    id = 109;
    user_id = 1;
    status = created;
    promo_code_id = some 9;
    total_amount = 0;
    discount_amount = 750;
    created_at = 1_000_000_000_010;
    updated_at = 1_000_000_000_011;
  };
  items =
      record { id = 105; order_id = 109; product_id = 7; quantity = pos 3; price_at_order = 250 }
      ∷ [];
}

-- The order of three lamps is free with the code.
create_free :
    create env (pos 5) 1 three_lamps (some "BIG") with_code
    ≡ (ok free_order, (create env (pos 5) 1 three_lamps (some "BIG") with_code).1)
unfolding the_code
create_free = refl

sum : total_from env 0 free_order.items ≡ 750
unfolding total_from soa_hw.Prelude.Int.◌*ℤ◌
sum = refl

create_free_above_cap_example :
    (free_order.order.discount_amount ≡ total_from env 0 free_order.items)
    × (free_order.order.total_amount
        ≡ env.double.sub (total_from env 0 free_order.items) (total_from env 0 free_order.items))
create_free_above_cap_example =
    create_free_above_cap env (pos 5) 1 three_lamps "BIG" eighty_percent with_code free_order
      (create env (pos 5) 1 three_lamps (some "BIG") with_code).1 create_free refl refl
      (record { percentage = refl; over = rw sum })
