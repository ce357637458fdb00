-- ===== src/Orders/Books/Calls.antt =====
-- The calls of the orders service keep the books.
use soa_hw.Prelude.{
  ℕ, suc, ◌≡◌, refl, sym, Bool, true, false, not, ◌&&◌, ◌==◌, Option, none, some, List, All,
  All-weaken, All-append_one, All-update_where, find-All, find-any, count, count-append_one,
  count-update_where_one, count-update_where_less, update_where, String, str_eq, inl, inr,
  if◌then◌else◌, arith,
}
use soa_hw.Prelude.Int.{ℤ}
use soa_hw.Domain.{Order, OrderWithItems}
use soa_hw.Domain.Status.{canceled, can_transition_to, status_eq}
use soa_hw.Domain.Promo.{PromoCode}
use soa_hw.Store.{Env, Db}
use soa_hw.Store.Schema.{refers}
use soa_hw.Orders.Repository.{has_id, overwrite}
use soa_hw.Orders.Service.{OrderItemRequest}
use soa_hw.Orders.Conservation.Redeem.{Applied}
use soa_hw.Orders.Redemptions.{redeem, release}
use soa_hw.Orders.Effects.Create.{MayPlace, Placed}
use soa_hw.Orders.Effects.Change.{Owned, Replaced, Canceled}
use soa_hw.Orders.Effects.Active.{create-IsOrderly, update-IsOrderly, cancel-IsOrderly}
use soa_hw.Orders.Books.{carries, redeems, IsKnown, IsCounted, IsBooked}
use soa_hw.Orders.Books.Counts.{
  not_canceled, redeem-IsCounted, release-IsCounted, use_once-IsKnown, release-IsKnown,
}

module _ {F : Type 0} (db d : Db F) where
  -- The promo code that an order gets is in the table.
  Applied-IsKnown :
      (env : Env F) (code : Option String) (total : F) (r : F × Option ℕ)
      → Applied env db code total r
      → refers (λ (p : PromoCode F). p.id) r.1 db.promo_codes ≡ true
  Applied-IsKnown env none total r a = rw a
  Applied-IsKnown env (some code) total r (inl a) = rw (a.1)
  Applied-IsKnown env (some code) total r (inr a) = rw (a.1.result) (
      find-any (λ q. str_eq q.code code) (λ p. p.id == a.1.promo.id) db.promo_codes a.1.promo
        a.1.found (ground arith))

  pub create-IsBooked :
      (env : Env F) (minutes : ℤ) (user_id : ℕ) (requests : List OrderItemRequest)
      (code : Option String) (r : OrderWithItems F)
      → IsBooked db
      → MayPlace env db minutes user_id
      → Placed env db user_id requests code r d.orders
      → d.promo_codes ≡ redeem r.order.promo_code_id db.promo_codes
      → IsBooked d
  unfolding status_eq
  create-IsBooked env minutes user_id requests code r b m p e = record {
    orderly = create-IsOrderly env db minutes user_id requests code r d.orders b.orderly m p;
    known = rw (p.rows) (
        All-append_one (IsKnown d.promo_codes) db.orders p.row
          (All-weaken (IsKnown db.promo_codes) (IsKnown d.promo_codes) db.orders
            (λ o k.
              rw
                (
                  e,
                  ← (
                      use_once-IsKnown db.orders d.orders r.order.promo_code_id db.promo_codes
                        o.promo_code_id),
                )
                k)
            b.known)
          (rw
            (
              e,
              p.row_promo,
              ← (
                  use_once-IsKnown db.orders d.orders r.order.promo_code_id db.promo_codes
                    r.order.promo_code_id),
            )
            (Applied-IsKnown env code _ _ p.discount)));
    counted = rw e (
        redeem-IsCounted db.orders d.orders r.order.promo_code_id db.promo_codes
          (λ id.
            rw (p.rows, count-append_one (redeems id) db.orders p.row, p.row_promo, p.row_status)
              (ground arith))
          b.counted);
  }

  module _ (id user_id : ℕ) (m : Owned db id user_id) (b : IsBooked db) where
    -- The rows of an order that carries the promo code of the order that was found.
    overwritten-IsKnown :
        (r : Order F) (total discount : F) (time : ℕ)
        → r.promo_code_id ≡ m.order.promo_code_id
        → All
            (IsKnown db.promo_codes)
            (update_where (has_id id) (overwrite r total discount time) db.orders)
    overwritten-IsKnown r total discount time e =
        All-update_where (IsKnown db.promo_codes) (IsKnown db.promo_codes) (has_id id)
          (overwrite r total discount time) db.orders
          (λ o _ _.
            rw e (find-All (IsKnown db.promo_codes) (has_id id) db.orders m.order m.found b.known))
          (λ o _ k. k) b.known

    pub update-IsBooked :
        (env : Env F) (requests : List OrderItemRequest) (r : OrderWithItems F)
        → Replaced env db id m.order requests r d.orders
        → d.promo_codes ≡ db.promo_codes
        → IsBooked d
    update-IsBooked env requests r p e = record {
      orderly = update-IsOrderly env db id user_id requests r d.orders b.orderly m p;
      known =
          rw (p.overwrites.rows, e)
            (overwritten-IsKnown r.order p.overwrites.total p.overwrites.discount p.overwrites.time
              p.same_promo);
      counted = rw e (
          All-weaken (IsCounted db.orders) (IsCounted d.orders) db.promo_codes
            (λ q c. rw (p.overwrites.rows, same_count q.id) c) b.counted);
    }
      where
        same_count :
            (k : ℕ)
            → count (redeems k) (
                update_where
                  (has_id id)
                  (overwrite r.order p.overwrites.total p.overwrites.discount p.overwrites.time)
                  db.orders)
              ≡ count (redeems k) db.orders
        same_count k =
            count-update_where_one (redeems k) (has_id id)
              (overwrite r.order p.overwrites.total p.overwrites.discount p.overwrites.time)
              db.orders m.order m.found (b.orderly.unique id) (rw (p.same_status, p.same_promo))

    pub cancel-IsBooked :
        (env : Env F) (r : OrderWithItems F)
        → can_transition_to m.order.status canceled ≡ true
        → Canceled env db id m.order r d.orders
        → d.promo_codes ≡ release r.order.promo_code_id db.promo_codes
        → IsBooked d
    unfolding status_eq
    cancel-IsBooked env r may p e = record {
      orderly = cancel-IsOrderly env db id m.order r d.orders b.orderly p;
      known = rw (p.overwrites.rows) (
          All-weaken (IsKnown db.promo_codes) (IsKnown d.promo_codes) _
            (λ o k.
              rw
                (
                  e,
                  ← (
                      release-IsKnown db.orders d.orders r.order.promo_code_id db.promo_codes
                        o.promo_code_id),
                )
                k)
            (overwritten-IsKnown r.order p.overwrites.total p.overwrites.discount p.overwrites.time
              p.same_promo));
      counted = rw e (
          release-IsCounted db.orders d.orders r.order.promo_code_id db.promo_codes
            (λ k. rw (p.overwrites.rows) (fewer k (carries k r.order.promo_code_id) refl))
            b.counted);
    }
      where
        after : List (Order F)
        after =
            update_where (has_id id)
              (overwrite r.order p.overwrites.total p.overwrites.discount p.overwrites.time)
              db.orders

        none_after : (b : Bool) → (b && not true) ≡ false
        none_after true = refl
        none_after false = refl

        fewer :
            (k : ℕ) (c : Bool)
            → carries k r.order.promo_code_id ≡ c
            → count (redeems k) db.orders
              ≡ (if c then suc (count (redeems k) after) else count (redeems k) after)
        fewer k true same =
            count-update_where_less (redeems k) (has_id id)
              (overwrite r.order p.overwrites.total p.overwrites.discount p.overwrites.time)
              db.orders m.order m.found (b.orderly.unique id)
              (rw (← (p.same_promo), same, not_canceled m.order.status may))
              (rw (p.status) (none_after _))
        fewer k false same = sym (
            count-update_where_one (redeems k) (has_id id)
              (overwrite r.order p.overwrites.total p.overwrites.discount p.overwrites.time)
              db.orders m.order m.found (b.orderly.unique id)
              (rw (p.status, ← (p.same_promo), same)))
