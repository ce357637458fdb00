-- ===== src/Products/Tests.antt =====
-- A small shop: its listing with two products on a page, and changes of its catalogue.
use soa_hw.Prelude.{
  ℕ, ◌+◌, ◌-◌, ◌*◌, ◌/◌, ◌≡◌, refl, false, true, ltb, none, some, List, [], ◌∷◌, take, arith,
}
use soa_hw.Prelude.Int.{pos, pos_part}
use soa_hw.Fixtures.{env, no_tables}
use soa_hw.Domain.{Product, product_active, product_archived}
use soa_hw.Store.{Env, World}
use soa_hw.Store.Action.{ok}
use soa_hw.Products.Order.{IsOrderBy}
use soa_hw.Products.Pages.{read_pages, selected, read_pages_eq}
use soa_hw.Store.Outcome.{Ends}
use soa_hw.Products.Access.Authorized as Access
use soa_hw.Products.Catalogue.{deletes}
use soa_hw.Products.Catalogue.Refines.{Steps, serve, serve-Steps}

abbrev lamp : ℕ → Product ℕ
lamp id = record {
  id = id;
  name = "lamp";
  description = none;
  price = 250;
  stock = pos 10;
  category = "home";
  status = product_active;
  seller_id = none;
  created_at = 9 - id;
  updated_at = 0;
}

abbrev shop : World ℕ
shop = record no_tables {
  db = record no_tables.db {
    products =
        lamp 1 ∷ lamp 2 ∷ record (lamp 3) { status = product_archived } ∷ lamp 4 ∷ lamp 5 ∷ [];
  };
}

-- What a filter on active products selects; rows of the same time are in the order of the table.
abbrev active_lamps : List (Product ℕ)
active_lamps = selected (λ n rows. rows) env (some product_active) none 2 shop

active_lamps_run : active_lamps ≡ lamp 1 ∷ lamp 2 ∷ lamp 4 ∷ lamp 5 ∷ []
active_lamps_run = refl

-- Each active lamp is older than the one before it.
newest_first : IsOrderBy active_lamps active_lamps
newest_first = record {
  descending = (
    (omega arith, (omega arith, (omega arith, tt))),
    ((omega arith, (omega arith, tt)), ((omega arith, tt), (tt, tt))),
  );
  same_rows = λ time. refl;
}

read_pages_eq_example :
    (v : World ℕ) × (v.db ≡ shop.db)
    × (read_pages (λ n rows. rows) env (some product_active) none 2 2 shop
        ≡ (ok (take (2 * 2) active_lamps), v))
read_pages_eq_example =
    read_pages_eq (λ n rows. rows) env (some product_active) none 2 2 shop (λ n. refl) refl
      (omega arith) (λ n. newest_first)

deleted_run :
    (serve env (deletes 2) shop).1.db.products
    ≡ lamp 1
      ∷ record (lamp 2) { status = product_archived; updated_at = 1_000_000_000_000 }
      ∷ record (lamp 3) { status = product_archived }
      ∷ lamp 4
      ∷ lamp 5
      ∷ []
unfolding soa_hw.Products.Service.delete soa_hw.Products.Repository.delete soa_hw.Store.Action.◌>>=◌
    soa_hw.Store.Action.on_error soa_hw.Store.Action.exec soa_hw.Products.Repository.archive_product
    soa_hw.Store.Schema.product_row soa_hw.Prelude.Int.is_int4 soa_hw.Store.Action.or_raise
deleted_run = refl

serve-Steps_example : Ends shop.db (Steps env shop.db (deletes 2)) (serve env (deletes 2) shop)
serve-Steps_example = serve-Steps env (deletes 2) shop
