-- ===== src/Promos/Tests.antt =====
-- A request at a concrete input.
use soa_hw.Prelude.{ℕ, ◌≡◌, refl, true, none, some, [], ◌∷◌, ◌==◌, Bool-cases, inl, inr, arith}
use soa_hw.Prelude.Int.{pos}
use soa_hw.Fixtures.{api, env, no_tables}
use soa_hw.Domain.Promo.{PromoCode, discount_percentage}
use soa_hw.Store.{World}
use soa_hw.Store.Outcome.{Ends}
use soa_hw.Store.Schema.{promo_row}
use soa_hw.Promos.Valid.{IsValid}
use soa_hw.Promos.Access.{handle-PromoReply}
use soa_hw.Promos.Access.Done.{Request, puts, handle, PromoReply}

abbrev ten_percent : PromoCode ℕ
ten_percent = record {
  id = 2;
  code = "TEN";
  discount_type = discount_percentage;
  discount_value = 1000;
  min_order_amount = 0;
  max_uses = pos 5;
  current_uses = pos 3;
  valid_from = 0;
  valid_until = 10;
  active = true;
}

abbrev shop : World ℕ
shop = record no_tables { db = record no_tables.db { promo_codes = ten_percent ∷ [] } }

-- A maximum below the uses so far, which the table refuses.
abbrev fewer : Request ℕ
fewer = puts "2" (
    some (record {
      active = none;
      discount_value = none;
      min_order_amount = none;
      max_uses = some (pos 2);
      valid_until = none;
    }))

shop-IsValid : IsValid env shop.db.promo_codes
unfolding promo_row soa_hw.Prelude.Int.is_int4
shop-IsValid id = elim (Bool-cases (2 == id)) [ inl e ↦ rw e refl | inr e ↦ rw e tt ]

handle-PromoReply_example :
    Ends shop.db (PromoReply env api "ADMIN" shop.db fewer) (handle env api "ADMIN" fewer shop)
handle-PromoReply_example = handle-PromoReply env api "ADMIN" fewer shop shop-IsValid
