-- ===== src/Server/Tests/History.antt =====
-- A history of two requests: an order with a promo code is placed and canceled.
use soa_hw.Prelude.{ℕ, refl, true, none, some, [], ◌∷◌, arith}
use soa_hw.Prelude.Int.{pos}
use soa_hw.Domain.{User, role_seller, Product, product_active}
use soa_hw.Domain.Promo.{PromoCode, discount_fixed_amount}
use soa_hw.Store.{Env, World}
use soa_hw.Fixtures.{api, env, crypto}
use soa_hw.Store.Outcome.{Ends}
use soa_hw.Orders.Handler.{OrderCreate}
use soa_hw.Orders.Books.{IsBooked}
use soa_hw.Server.Config.{Settings, settings}
use soa_hw.Server.Router.{Endpoint, create_order, cancel_order, dispatch}
use soa_hw.Server.Router.PostOrder.{PostReply, post_order_replies}
use soa_hw.Server.History.{serve, idle, history-IsBooked}

abbrev ann : User
ann = record {
  id = 1;
  email = "ann@test.com";
  password_hash = "secret";
  role = role_seller;
  created_at = 0;
  updated_at = 0;
}

abbrev lamp : Product ℕ
lamp = record {
  id = 7;
  name = "lamp";
  description = none;
  price = 250;
  stock = pos 10;
  category = "home";
  status = product_active;
  seller_id = none;
  created_at = 0;
  updated_at = 0;
}

abbrev one_off : PromoCode ℕ
one_off = record {
  id = 9;
  code = "ONE";
  discount_type = discount_fixed_amount;
  discount_value = 100;
  min_order_amount = 0;
  max_uses = pos 5;
  current_uses = pos 0;
  valid_from = 0;
  valid_until = 2_000_000_000_000;
  active = true;
}

abbrev shop : World ℕ
shop = record {
  db = record {
    users = ann ∷ [];
    products = lamp ∷ [];
    promo_codes = one_off ∷ [];
    orders = [];
    order_items = [];
    user_operations = [];
  };
  tx = none;
  calls = 0;
}

abbrev main_settings : Settings
main_settings = settings (λ key. "")

-- During the first request uuid.New() gives the identifier that the second request names.
abbrev first : Env ℕ
first = record env { new_uuid = λ n. 106 }

abbrev order_body : OrderCreate
order_body = record {
  items = record { product_id = "7"; quantity = pos 3 } ∷ [];
  promo_code = some "ONE";
}

abbrev places : Endpoint ℕ
places = create_order (some order_body)

abbrev after_first : World ℕ
after_first =
    (dispatch crypto main_settings first api (λ n rows. rows) (λ text. none) places "Bearer t"
      shop).1

abbrev after_second : World ℕ
after_second =
    (dispatch crypto main_settings env api (λ n rows. rows) (λ text. none) (cancel_order "106")
      "Bearer t" after_first).1

shop-IsBooked : IsBooked shop.db
shop-IsBooked = record {
  orderly = record { unique = λ id. ground arith; one_active = λ user_id. ground arith };
  known = tt;
  counted = (refl, tt);
}

history-IsBooked_example : IsBooked after_second.db
history-IsBooked_example =
    history-IsBooked crypto main_settings api (λ n rows. rows) (λ text. none)
      (serve first places "Bearer t" (serve env (cancel_order "106") "Bearer t" idle)) shop-IsBooked

post_order_replies_example :
    Ends shop.db (PostReply crypto main_settings first api (some order_body) "Bearer t" shop) (
      dispatch crypto main_settings first api
        (λ n rows. rows)
        (λ text. none)
        places
        "Bearer t"
        shop)
post_order_replies_example =
    post_order_replies crypto main_settings first api (λ n rows. rows) (λ text. none)
      (some order_body) "Bearer t" shop
