-- ===== src/Orders/Tests/RateLimit.antt =====
-- The rate limit after the order of Orders/Tests: it is canceled, and a new one comes too soon.
use soa_hw.Prelude.{ℕ, refl, none, ◌≡◌, [], ◌∷◌, arith}
use soa_hw.Prelude.Int.{pos}
use soa_hw.Domain.{OrderWithItems}
use soa_hw.Domain.Status.{created}
use soa_hw.Store.{Env, World}
use soa_hw.Store.Action.{ok}
use soa_hw.Fixtures.{api, env, crypto}
use soa_hw.Orders.Service.{create}
use soa_hw.Orders.Effects.Once.{IsRefused}
use soa_hw.Orders.Tests.{start, three_lamps, ordered, the_code}
use soa_hw.Server.Config.{Settings, settings}
use soa_hw.Server.Router.{cancel_order, dispatch}
use soa_hw.Server.History.{serve, idle}
use soa_hw.Server.History.RateLimit.{rate_limit_holds}

abbrev main_settings : Settings
main_settings = settings (λ key. "")

-- A clock that stands still.
abbrev at_once : Env ℕ
at_once = record env { now = λ n. 1_000_000_000_000 }

abbrev after_cancel : World ℕ
after_cancel =
    (dispatch crypto main_settings at_once api (λ n rows. rows) (λ text. none) (cancel_order "106")
      "Bearer t" ordered).1

abbrev the_order : OrderWithItems ℕ
the_order = record {
  order = record {
    id = 106;
    user_id = 1;
    status = created;
    promo_code_id = none;
    total_amount = 750;
    discount_amount = 0;
    created_at = 1_000_000_000_007;
    updated_at = 1_000_000_000_008;
  };
  items =
      record { id = 105; order_id = 106; product_id = 7; quantity = pos 3; price_at_order = 250 }
      ∷ [];
}

first_run : create env (pos 5) 1 three_lamps none start ≡ (ok the_order, ordered)
unfolding the_code
first_run = refl

rate_limit_holds_example : IsRefused (create at_once (pos 5) 1 three_lamps none after_cancel)
rate_limit_holds_example =
    rate_limit_holds crypto main_settings api (λ n rows. rows) (λ text. none) env (pos 5) 1
      three_lamps none start the_order ordered after_cancel first_run
      (serve at_once (cancel_order "106") "Bearer t" idle) 1_000_000_000_000 (λ k. omega arith)
      at_once 5 (omega arith) (λ k. omega arith) three_lamps none
