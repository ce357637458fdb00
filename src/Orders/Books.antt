-- ===== src/Orders/Books.antt =====
-- The books of orders and promo codes: what the rows of both tables say of one another.
pub mod Counts
pub mod Calls
pub mod Codes
pub mod Forget
use soa_hw.Prelude.{
  ℕ, ◌≡◌, refl, Bool, true, false, not, ◌&&◌, ◌==◌, ==_iff, Option, none, some, List, All, any,
  count, arith,
}
use soa_hw.Prelude.Int.{pos}
use soa_hw.Domain.{Order}
use soa_hw.Domain.Status.{canceled, status_eq}
use soa_hw.Domain.Promo.{PromoCode}
use soa_hw.Store.{Db}
use soa_hw.Store.Schema.{refers}
use soa_hw.Orders.Effects.Active.{IsOrderly}

abbrev pub carries : ℕ → Option ℕ → Bool
carries id none = false
carries id (some k) = k == id

module _ {F : Type 0} where
  -- The order has used this promo code, and has not given the use back.
  abbrev pub redeems : ℕ → Order F → Bool
  redeems id o = carries id o.promo_code_id && not (status_eq o.status canceled)

  -- The order's promo code, if it has one, is in the table.
  abbrev pub IsKnown : List (PromoCode F) → Order F → Type 0
  IsKnown promos o = refers (λ (p : PromoCode F). p.id) o.promo_code_id promos ≡ true

  -- The uses of the promo code are the orders that redeem it.
  abbrev pub IsCounted : List (Order F) → PromoCode F → Type 0
  IsCounted orders p = p.current_uses ≡ pos (count (redeems p.id) orders)

  pub record IsBooked (db : Db F) : Type 0 where
    pub orderly : IsOrderly db.orders
    pub known : All (IsKnown db.promo_codes) db.orders
    pub counted : All (IsCounted db.orders) db.promo_codes
