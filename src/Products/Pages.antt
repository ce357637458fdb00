-- ===== src/Products/Pages.antt =====
-- The pages of a listing.
use soa_hw.Prelude.{
  ℕ, zero, suc, ◌+◌, ◌*◌, ◌<◌, ◌^◌, ◌≡◌, refl, sym, ◌∙◌, true, false, List, [], ◌++◌, Option,
  select, take, drop, length, take-add, take-zero, arith, String,
}
use soa_hw.Prelude.Int.{pos, ◌*ℤ◌, wrap_int64}
use soa_hw.Domain.{Product, ProductStatus}
use soa_hw.Store.{Env, Db, World}
use soa_hw.Store.Action.{ok, Action, pure, ◌>>=◌, exec, on_error}
use soa_hw.Products.Order.{IsOrderBy, one_order}
use soa_hw.Products.Listing.{
  Filter, matches, is_known, offset, count_products, select_page, query_page, list,
}

-- The filter for one page.
abbrev pub at_page : Option ProductStatus → Option String → ℕ → ℕ → Filter
at_page status category size page = record {
  status = status;
  category = category;
  page = pos page;
  size = pos size;
}

offset_eq :
    (status : Option ProductStatus) (category : Option String) (size page : ℕ)
    → page * size < 2 ^ 63
    → offset (at_page status category size page) ≡ pos (page * size)
unfolding offset wrap_int64 ◌*ℤ◌
offset_eq status category size page h = ground arith

zero_mul : (n : ℕ) → 0 * n ≡ 0
zero_mul n = omega arith

suc_mul : (m n : ℕ) → suc m * n ≡ m * n + n
suc_mul m n = ground arith

module _ {F : Type 0} (sort : ℕ → List (Product F) → List (Product F)) (env : Env F)
    (status : Option ProductStatus) (category : Option String) (size : ℕ) where
  -- A client that reads the first `pages` pages.
  unfoldable pub read_pages : ℕ → Action F (List (Product F))
  read_pages zero = pure []
  read_pages (suc page) = do
    rows ← read_pages page
    last ← list sort env (at_page status category size page)
    pure (rows ++ last.products)

  -- The rows that the filter selects.
  abbrev pub selection : World F → List (Product F)
  selection w = select (matches (at_page status category size 0)) w.db.products

  -- The same in the order of a query; it does not matter which, if there is one order.
  abbrev pub selected : World F → List (Product F)
  selected w = sort 0 (selection w)

  count_eq :
      (page n : ℕ) (db : Db F)
      → is_known status ≡ true
      → count_products (at_page status category size page) n db
        ≡ ok (length (select (matches (at_page status category size 0)) db.products), db)
  unfolding count_products
  count_eq page n db known = rw (known)

  select_page_eq :
      (page k n : ℕ) (db : Db F)
      → is_known status ≡ true
      → page * size < 2 ^ 63
      → select_page (sort k) (at_page status category size page) n db
        ≡ ok (
          take size (
              drop
                (page * size)
                (sort k (select (matches (at_page status category size 0)) db.products))),
          db,
        )
  unfolding select_page
  select_page_eq page k n db known h =
      rw (known, offset_eq status category size page h) (ground arith)

  list_eq :
      (page : ℕ) (w : World F)
      → ((n : ℕ) → env.fails n ≡ false)
      → is_known status ≡ true
      → page * size < 2 ^ 63
      → list sort env (at_page status category size page) w ≡ (
        ok (record {
          products = take size (drop (page * size) (sort (w.calls + 1) (selection w)));
          total_elements = length (selection w);
        }),
        record w { calls = w.calls + 1 + 1 },
      )
  unfolding list query_page ◌>>=◌ exec on_error pure
  list_eq page w never known h = rw (
    never w.calls,
    count_eq page (env.db_now w.calls) w.db known,
    never (w.calls + 1),
    select_page_eq page (w.calls + 1) (env.db_now (w.calls + 1)) w.db known h,
  )

  -- All queries give one order.
  same_order :
      (w v : World F) (k : ℕ)
      → v.db ≡ w.db
      → ((n : ℕ) → IsOrderBy (selection w) (sort n (selection w)))
      → sort k (selection v) ≡ selected w
  same_order w v k same orders = rw same (
      one_order _ _ (orders k).descending (orders 0).descending
        (λ time. (orders k).same_rows time ∙ sym ((orders 0).same_rows time)))

-- If no call of the driver fails, the status of the filter is none or one of the three, the number of
-- rows fits in 63 bits, and every query orders the rows that the filter selects by their times of
-- creation, each of its own, then reading the first pages of a listing, one after the other, changes
-- no table and gives as many of the first of these rows in this order: no row is skipped or repeated.
pub read_pages_eq :
    {F : Type 0} (sort : ℕ → List (Product F) → List (Product F)) (env : Env F)
    (status : Option ProductStatus) (category : Option String) (size pages : ℕ) (w : World F)
    → ((n : ℕ) → env.fails n ≡ false)
    → is_known status ≡ true
    → pages * size < 2 ^ 63
    → ((n : ℕ)
        → IsOrderBy
            (selection sort env status category size w)
            (sort n (selection sort env status category size w)))
    → (v : World F) × (v.db ≡ w.db)
      × (read_pages sort env status category size pages w
          ≡ (ok (take (pages * size) (selected sort env status category size w)), v))
unfolding read_pages pure ◌>>=◌
read_pages_eq sort env status category size zero w never known h orders =
    (w, refl, rw (zero_mul size, take-zero (selected sort env status category size w)))
read_pages_eq sort env status category size (suc pages) w never known h orders =
    let (v, same, e) =
      read_pages_eq sort env status category size pages w never known
        (omega (arith, h, suc_mul pages size)) orders in
    (
      record v { calls = v.calls + 1 + 1 },
      same,
      rw (
        e,
        list_eq sort env status category size pages v never known
            (omega (arith, h, suc_mul pages size)),
        same_order sort env status category size w v (v.calls + 1) same orders,
        suc_mul pages size,
        take-add (pages * size) size (selected sort env status category size w),
      ),
    )
