-- ===== src/Orders/Tests.antt =====
-- A small marketplace, runs of the service on it, and the theorems at these inputs. Amounts are
-- hundredths, as fixed-point numbers.
mod Effects
mod Replies
mod Race
mod RateLimit
use soa_hw.Prelude.{
  ℕ, ◌+◌, ◌*◌, ◌/◌, ◌-◌, ◌≡◌, refl, Bool, true, false, Option, none, some, List, [], ◌∷◌, map, ltb,
  inl, inr,
}
use soa_hw.Prelude.Int.{ℤ, pos, pos_part, ◌+ℤ◌, ◌-ℤ◌}
use soa_hw.Fixtures.{env}
use soa_hw.Domain.{
  User, role_user, Product, product_active, Order, OrderItem, operation_create_order,
}
use soa_hw.Domain.Status.{created, canceled, paid, shipped}
use soa_hw.Store.{Env, Db, World}
use soa_hw.Store.Action.{Result, ok, err}
use soa_hw.Store.Outcome.{Ends}
use soa_hw.Orders.Inventory.{SameTotals, all_units, units}
use soa_hw.Orders.Repository.{belongs}
use soa_hw.Orders.Service.{OrderItemRequest, create, update, cancel}
use soa_hw.Orders.Conservation.Create.{create_conserves}
use soa_hw.Orders.Conservation.Cancel.{cancel_conserves}
use soa_hw.Orders.Conservation.Update.{update_conserves, update_of_canceled_adds}
use soa_hw.Prelude.{select}

abbrev pub buyer : User
buyer = record {
  id = 1;
  email = "user@test.com";
  password_hash = "hash";
  role = role_user;
  created_at = 0;
  updated_at = 0;
}

abbrev pub lamp : Product ℕ
lamp = record {
  id = 7;
  name = "lamp";
  description = none;
  price = 250;
  stock = pos 10;
  category = "home";
  status = product_active;
  seller_id = none;
  created_at = 0;
  updated_at = 0;
}

abbrev pub old_order : Order ℕ
old_order = record {
  id = 50;
  user_id = 1;
  status = canceled;
  promo_code_id = none;
  total_amount = 500;
  discount_amount = 0;
  created_at = 0;
  updated_at = 0;
}

abbrev pub old_item : OrderItem ℕ
old_item = record { id = 51; order_id = 50; product_id = 7; quantity = pos 2; price_at_order = 250 }

-- One product, and an order of two lamps that was canceled.
abbrev pub start : World ℕ
start = record {
  db = record {
    users = buyer ∷ [];
    products = lamp ∷ [];
    promo_codes = [];
    orders = old_order ∷ [];
    order_items = old_item ∷ [];
    user_operations = [];
  };
  tx = none;
  calls = 0;
}

abbrev pub three_lamps : List OrderItemRequest
three_lamps = record { product_id = 7; quantity = pos 3 } ∷ []

-- The state after an order of three lamps.
abbrev pub ordered : World ℕ
ordered = record {
  db = record {
    users = buyer ∷ [];
    products = record lamp { stock = pos 7; updated_at = 1_000_000_000_002 } ∷ [];
    promo_codes = [];
    orders =
        old_order
        ∷ record {
          id = 106;
          user_id = 1;
          status = created;
          promo_code_id = none;
          total_amount = 750;
          discount_amount = 0;
          created_at = 1_000_000_000_007;
          updated_at = 1_000_000_000_008;
        }
        ∷ [];
    order_items =
        old_item
        ∷ record {
          id = 105;
          order_id = 106;
          product_id = 7;
          quantity = pos 3;
          price_at_order = 250;
        }
        ∷ [];
    user_operations =
        record {
          id = 111;
          user_id = 1;
          operation_type = operation_create_order;
          created_at = 1_000_000_000_012;
        }
        ∷ [];
  };
  tx = none;
  calls = 15;
}

-- What a run computes with.
pub the_code : Unit {0}
unfolding soa_hw.Orders.Service.create soa_hw.Orders.Service.update soa_hw.Orders.Service.cancel
    soa_hw.Orders.Service.create_in_tx soa_hw.Orders.Service.update_in_tx
    soa_hw.Orders.Service.cancel_in_tx soa_hw.Orders.Service.place_order
    soa_hw.Orders.Service.replace_order soa_hw.Orders.Service.release_promo
    soa_hw.Orders.Service.restore_stock soa_hw.Orders.Service.reserve_items
    soa_hw.Orders.Service.apply_promo soa_hw.Orders.Service.apply_code
    soa_hw.Orders.Service.create_items soa_hw.Store.Action.◌>>=◌ soa_hw.Store.Action.on_error
    soa_hw.Store.Action.exec soa_hw.Store.Action.pure soa_hw.Store.Action.raise_if
    soa_hw.Store.Action.defer_rollback soa_hw.Store.Action.begin_tx soa_hw.Store.Action.commit
    soa_hw.Store.Action.or_raise soa_hw.Store.Action.raise soa_hw.Store.Action.time_now
    soa_hw.Store.Action.uuid_new soa_hw.Store.Schema.order_item_row soa_hw.Store.Schema.order_row
    soa_hw.Store.Schema.product_row soa_hw.Store.Schema.promo_row
    soa_hw.Store.Schema.user_operation_row soa_hw.Operations.Repository.check_rate_limit
    soa_hw.Operations.Repository.get_last_operation soa_hw.Operations.Repository.create
    soa_hw.Operations.Repository.select_last_operation soa_hw.Operations.Repository.insert_operation
    soa_hw.Operations.Repository.latest soa_hw.Operations.Repository.limit_at
    soa_hw.Operations.Repository.since soa_hw.Operations.Repository.since_last
    soa_hw.Operations.Repository.window soa_hw.Orders.Repository.get_active_order_by_user_id
    soa_hw.Orders.Repository.select_active_order soa_hw.Orders.Repository.create
    soa_hw.Orders.Repository.get_by_id soa_hw.Orders.Repository.select_order
    soa_hw.Orders.Repository.get_items_by_order_id soa_hw.Orders.Repository.select_items
    soa_hw.Orders.Repository.update soa_hw.Orders.Repository.update_order
    soa_hw.Orders.Repository.change_order soa_hw.Orders.Repository.delete_items
    soa_hw.Orders.Repository.delete_items_by_order_id soa_hw.Orders.Repository.create_item
    soa_hw.Orders.Repository.insert_item soa_hw.Orders.Repository.insert_order
    soa_hw.Orders.Repository.put_item soa_hw.Orders.Repository.put_order
    soa_hw.Orders.Repository.with_amounts soa_hw.Products.Repository.get_by_id
    soa_hw.Products.Repository.select_product soa_hw.Products.Repository.add_stock
    soa_hw.Products.Repository.update_stock soa_hw.Promos.Repository.get_by_code
    soa_hw.Promos.Repository.increment soa_hw.Promos.Repository.increment_uses
    soa_hw.Promos.Repository.decrement soa_hw.Promos.Repository.decrement_uses
    soa_hw.Promos.Repository.select_by_code soa_hw.Domain.Promo.calculate_discount
    soa_hw.Domain.Promo.is_valid soa_hw.Domain.Status.status_eq
    soa_hw.Domain.Status.can_transition_to soa_hw.Prelude.Int.clamp_int64 soa_hw.Prelude.Int.is_int4
    soa_hw.Prelude.Int.neg_int64 soa_hw.Prelude.Int.wrap_int64 soa_hw.Prelude.Int.◌*ℤ◌ ◌+ℤ◌ ◌-ℤ◌
    soa_hw.Orders.Inventory.is_live
the_code = tt

create_run : (create env (pos 5) 1 three_lamps none start).1 ≡ ordered
unfolding the_code
create_run = refl

create_conserves_example :
    Ends start.db (λ _ w. SameTotals start.db w.db) (create env (pos 5) 1 three_lamps none start)
create_conserves_example = create_conserves env (pos 5) 1 three_lamps none start (refl, tt)

-- The call of `Update` succeeds.
update_succeeds : update env 50 1 [] start ≡ (
  ok (record {
    order = record old_order { total_amount = 0; updated_at = 1_000_000_000_004 };
    items = [];
  }),
  (update env 50 1 [] start).1,
)
unfolding the_code
update_succeeds = refl

abbrev no_items : List (OrderItem ℕ)
no_items = []

update_of_canceled_adds_example :
    all_units 7 (update env 50 1 [] start).1.db +ℤ units 7 no_items
    ≡ all_units 7 start.db +ℤ units 7 (select (belongs 50) start.db.order_items)
update_of_canceled_adds_example =
    update_of_canceled_adds env 50 1 [] start old_order
      (record {
        order = record old_order { total_amount = 0; updated_at = 1_000_000_000_004 };
        items = [];
      })
      (update env 50 1 [] start).1 refl refl update_succeeds 7

cancel_conserves_example :
    Ends ordered.db (λ _ w. SameTotals ordered.db w.db) (cancel env 106 1 ordered)
cancel_conserves_example = cancel_conserves env 106 1 ordered

update_conserves_example :
    Ends ordered.db (λ _ w. SameTotals ordered.db w.db) (update env 106 1 three_lamps ordered)
unfolding the_code
update_conserves_example = update_conserves env 106 1 three_lamps ordered refl

-- The cancellation gives the three lamps back.
cancel_run : map (λ (p : Product ℕ). p.stock) (cancel env 106 1 ordered).1.db.products ≡ pos 10 ∷ []
unfolding the_code
cancel_run = refl

-- The two lamps of the canceled order 50 come back a second time.
update_of_canceled_run :
    map (λ (p : Product ℕ). p.stock) (update env 50 1 [] start).1.db.products ≡ pos 12 ∷ []
unfolding the_code
update_of_canceled_run = refl
