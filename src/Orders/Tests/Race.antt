-- ===== src/Orders/Tests/Race.antt =====
-- Two concurrent requests at the inputs of Orders/Tests.
use soa_hw.Prelude.{ℕ, ◌≡◌, refl, none, [], count}
use soa_hw.Prelude.Int.{pos}
use soa_hw.Domain.{OrderWithItems}
use soa_hw.Store.{World}
use soa_hw.Store.Action.{Result, ok, err}
use soa_hw.Fixtures.{env}
use soa_hw.Orders.Repository.{is_active}
use soa_hw.Orders.Tests.{start, three_lamps, old_order, the_code}
use soa_hw.Orders.Race.{Call, race, may_create, transact, race_lem}

abbrev call : Call
call = record { items = three_lamps; promo_code = none }

abbrev both : Result (OrderWithItems ℕ × OrderWithItems ℕ) × World ℕ
both = race env (pos 5) 1 call call start

abbrev orders_of :
    Result (OrderWithItems ℕ × OrderWithItems ℕ) → OrderWithItems ℕ × OrderWithItems ℕ
orders_of (ok orders) = orders
orders_of (err e) =
    (record { order = old_order; items = [] }, record { order = old_order; items = [] })

-- Both calls succeed.
race_succeeds : both ≡ (ok ((orders_of both.0).0, (orders_of both.0).1), both.1)
unfolding the_code race may_create transact
race_succeeds = refl

race_lem_example :
    (count (is_active 1) start.db.orders ≡ 0) × (count (is_active 1) both.1.db.orders ≡ 2)
race_lem_example =
    race_lem env (pos 5) 1 call call start both.1 (orders_of both.0).0 (orders_of both.0).1
      race_succeeds
