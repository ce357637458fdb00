-- ===== src/Fixtures.antt =====
-- Data for tests: amounts are hundredths, as fixed-point numbers, and no call of the driver fails.
use soa_hw.Prelude.{
  ℕ, ◌+◌, ◌*◌, ◌/◌, ◌-◌, true, false, none, some, [], ltb, if◌then◌else◌, str_eq, ◌==◌,
}
use soa_hw.Prelude.Int.{pos, pos_part}
use soa_hw.Double.{Double}
use soa_hw.Store.{Env, World}
use soa_hw.Users.Service.{Claims, Crypto, token}
use soa_hw.Http.Reply.{Api}

abbrev pub cents : Double ℕ
cents = record {
  zero = 0;
  hundred = 10000;
  seven_tenths = 70;
  add = λ a b. a + b;
  sub = λ a b. a - b;
  mul = λ a b. a * b / 100;
  div = λ a b. a * 100 / b;
  ltb = ltb;
  of_int = λ n. pos_part n * 100;
  single = λ a. a;
}

abbrev pub env : Env ℕ
env = record {
  double = cents;
  numeric = λ a. some a;
  positive = λ a. ltb 0 a;
  nonneg = λ a. true;
  timestamp = λ t. t;
  now = λ n. 1_000_000_000_000 + n;
  db_now = λ n. 1_000_000_000_000 + n;
  new_uuid = λ n. 100 + n;
  fails = λ n. false;
}

-- No rows in any table.
abbrev pub no_tables : World ℕ
no_tables = record {
  db = record {
    users = [];
    products = [];
    promo_codes = [];
    orders = [];
    order_items = [];
    user_operations = [];
  };
  tx = none;
  calls = 0;
}

-- Identifiers with texts of one digit.
abbrev pub api : Api
api = record {
  parse_uuid = λ s.
      if str_eq s "1"
      then some 1
      else if str_eq s "2"
      then some 2
      else if str_eq s "7"
      then some 7
      else if str_eq s "106"
      then some 106
      else none;
  uuid_text = λ n. if n == 1 then "1" else "2";
  error_text = λ e. "error";
}

-- A library that takes each text for a token of the user 1.
abbrev pub claims : Claims
claims = record {
  user_id = "1";
  email = "ann@test.com";
  role = "SELLER";
  expires_at = pos 0;
  issued_at = pos 0;
  not_before = pos 0;
}

abbrev pub crypto : Crypto
crypto = record {
  generate_from_password = λ salt password. some password;
  compare_hash_and_password = str_eq;
  signed_string = λ secret claims. some "token";
  parse_with_claims = λ key now text. token claims true;
  parse_uuid = api.parse_uuid;
  uuid_text = api.uuid_text;
}
