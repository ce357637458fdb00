-- ===== src/Orders/Books/Codes.antt =====
-- The statements that add and change promo codes keep the books.
use soa_hw.Prelude.{
  ℕ, ◌≡◌, refl, sym, ap, ◌∙◌, subst, Bool, true, false, ◌&&◌, ◌==◌, ==_iff, Option, none, some, [],
  ◌∷◌, ◌++◌, All-weaken, All-append_one, All-update_where, any, any-append, any-update_where,
  count-All-false, update_where, Bool-cases, inl, inr, arith,
}
use soa_hw.Prelude.Int.{pos}
use soa_hw.Domain.Promo.{PromoCode}
use soa_hw.Store.{Env, Db}
use soa_hw.Store.Schema.{refers}
use soa_hw.Store.Action.{ok}
use soa_hw.Promos.Repository.{
  has_id, overwrite, put_promo, change_promo, insert_promo, update_promo,
}
use soa_hw.Promos.Valid.{put_promo_rows, with_amounts_ok}
use soa_hw.Orders.Inventory.Statements.{SameBooks}
use soa_hw.Orders.Redemptions.{changed_rows}
use soa_hw.Orders.Books.{carries, redeems, IsKnown, IsCounted, IsBooked}

module _ {F : Type 0} (db d : Db F) where
  pub SameBooks-IsBooked : SameBooks db d → IsBooked db → IsBooked d
  SameBooks-IsBooked s b = record {
    orderly = rw (s.orders) (b.orderly);
    known = rw (s.orders, s.promo_codes) (b.known);
    counted = rw (s.orders, s.promo_codes) (b.counted);
  }

  unknown-redeems :
      (id : ℕ) (o : Option ℕ) (live : Bool)
      → any (λ (p : PromoCode F). p.id == id) db.promo_codes ≡ false
      → refers (λ (p : PromoCode F). p.id) o db.promo_codes ≡ true
      → (carries id o && live) ≡ false
  unknown-redeems id none live fresh known = refl
  unknown-redeems id (some k) live fresh known = elim (Bool-cases (k == id)) [
    | inl same ↦ absurd (
        cc (
          known,
          subst (λ n. any (λ (p : PromoCode F). p.id == n) db.promo_codes ≡ false)
              (sym ((==_iff k id).0 same)) fresh,
        ))
    | inr other ↦ rw other
  ]

  append-refers :
      (o : Option ℕ) (row : PromoCode F)
      → refers (λ (p : PromoCode F). p.id) o db.promo_codes ≡ true
      → refers (λ (p : PromoCode F). p.id) o (db.promo_codes ++ row ∷ []) ≡ true
  append-refers none row h = refl
  append-refers (some k) row h = any-append (λ p. p.id == k) db.promo_codes (row ∷ []) h

  module _ (env : Env F) (b : IsBooked db) where
    put_promo-orders :
        (row : PromoCode F) → put_promo env row db ≡ ok (tt, d) → d.orders ≡ db.orders
    unfolding put_promo
    put_promo-orders row h = ground arith

    pub insert_promo-IsBooked :
        (p : PromoCode F) (n : ℕ)
        → p.current_uses ≡ pos 0
        → insert_promo env p n db ≡ ok (tt, d)
        → IsBooked d
    unfolding insert_promo
    insert_promo-IsBooked p n unused h =
        let (x, y, is_x, is_y, put) =
          with_amounts_ok env db (env.numeric p.discount_value) (env.numeric p.min_order_amount) _
            (tt, d) h in
        added _ unused put
      where
        added :
            (row : PromoCode F)
            → row.current_uses ≡ pos 0
            → put_promo env row db ≡ ok (tt, d)
            → IsBooked d
        added row unused put =
            let (fresh, good, rows) = put_promo_rows env db row d put in
            let same : d.orders ≡ db.orders = put_promo-orders row put in
            record {
              orderly = rw same (b.orderly);
              known =
                  rw (same, rows)
                    (All-weaken (IsKnown db.promo_codes) (IsKnown (db.promo_codes ++ row ∷ []))
                      db.orders (λ o k. append-refers o.promo_code_id row k) b.known);
              counted =
                  rw (same, rows)
                    (All-append_one (IsCounted db.orders) db.promo_codes row b.counted (
                      unused
                      ∙ sym (
                          ap pos (
                            count-All-false (redeems row.id) db.orders (
                              All-weaken (IsKnown db.promo_codes) (λ o. redeems row.id o ≡ false)
                                db.orders (λ o k. unknown-redeems row.id o.promo_code_id _ fresh k)
                                b.known)))));
            }

    change_promo-orders :
        (test : PromoCode F → Bool) (f : PromoCode F → PromoCode F) (n : ℕ)
        → change_promo env test f n db ≡ ok (tt, d)
        → d.orders ≡ db.orders
    unfolding change_promo
    change_promo-orders test f n h = ground arith

    -- A change that leaves the identifiers and the uses.
    change_promo-IsBooked :
        (test : PromoCode F → Bool) (f : PromoCode F → PromoCode F) (n : ℕ)
        → ((p : PromoCode F) → (f p).id ≡ p.id)
        → ((p : PromoCode F) → (f p).current_uses ≡ p.current_uses)
        → change_promo env test f n db ≡ ok (tt, d)
        → IsBooked d
    change_promo-IsBooked test f n same_id same_uses h =
        let rows : d.promo_codes ≡ update_where test f db.promo_codes =
          changed_rows env test f n db d h in
        let same : d.orders ≡ db.orders = change_promo-orders test f n h in
        record {
          orderly = rw same (b.orderly);
          known =
              rw (same, rows)
                (All-weaken (IsKnown db.promo_codes) (IsKnown (update_where test f db.promo_codes))
                  db.orders (λ o k. changed-refers o.promo_code_id k) b.known);
          counted =
              rw (same, rows)
                (All-update_where (IsCounted db.orders) (IsCounted db.orders) test f db.promo_codes
                  (λ p _ c. rw (same_id p) (same_uses p ∙ c)) (λ p _ c. c) b.counted);
        }
      where
        changed-refers :
            (o : Option ℕ)
            → refers (λ (p : PromoCode F). p.id) o db.promo_codes ≡ true
            → refers (λ (p : PromoCode F). p.id) o (update_where test f db.promo_codes) ≡ true
        changed-refers none h = refl
        changed-refers (some k) h =
            any-update_where (λ p. p.id == k) test f db.promo_codes (λ p. rw (same_id p)) ∙ h

    pub update_promo-IsBooked :
        (p : PromoCode F) (n : ℕ) → update_promo env p n db ≡ ok (tt, d) → IsBooked d
    unfolding update_promo
    update_promo-IsBooked p n h =
        let (x, y, is_x, is_y, change) =
          with_amounts_ok env db (env.numeric p.discount_value) (env.numeric p.min_order_amount) _
            (tt, d) h in
        change_promo-IsBooked (has_id p.id) (overwrite p x y (env.timestamp p.valid_until)) n
          (λ q. refl) (λ q. refl) change
