-- ===== src/Orders/Books/Forget.antt =====
-- The deletion of a promo code, after which its orders have none, keeps the books.
use soa_hw.Prelude.{
  ℕ, ◌≡◌, refl, sym, ap, ◌∙◌, true, false, ◌==◌, Option, none, some, All-update_where,
  All-delete_where, any-delete_where, count-update_where_same, update_where, delete_where,
  Bool-cases, Option-cases, ◌⊎◌, inl, inr, arith,
}
use soa_hw.Prelude.Int.{pos}
use soa_hw.Domain.{Order}
use soa_hw.Domain.Promo.{PromoCode}
use soa_hw.Store.{Db}
use soa_hw.Store.Schema.{refers}
use soa_hw.Store.Action.{ok}
use soa_hw.Promos.Repository.{has_id, forget_promo, delete_promo}
use soa_hw.Orders.Repository as Orders
use soa_hw.Orders.Effects.Active.{IsOrderly}
use soa_hw.Orders.Books.{carries, redeems, IsKnown, IsCounted, IsBooked}

-- An order that forgets a promo code is as before, or it carried this code.
forget-cases :
    {F : Type 0} (id n : ℕ) (o : Order F)
    → ((forget_promo id n o ≡ o) × (carries id o.promo_code_id ≡ false))
      ⊎ ((forget_promo id n o ≡ record o { promo_code_id = none; updated_at = n })
          × (carries id o.promo_code_id ≡ true))
forget-cases id n o = elim (Option-cases o.promo_code_id) [
  | inl e ↦ inl (ground arith, rw e)
  | inr (k, e) ↦ elim (Bool-cases (k == id)) [
    | inl same ↦ inr (ground arith, rw e same)
    | inr other ↦ inl (ground arith, rw e other)
  ]
]

module _ {F : Type 0} (db : Db F) (id n : ℕ) where
  -- What the change does not touch.
  forget-keeps :
      {A : Type 0} (g : Order F → A) (o : Order F)
      → g (record o { promo_code_id = none; updated_at = n }) ≡ g o
      → g (forget_promo id n o) ≡ g o
  forget-keeps g o same = elim (forget-cases id n o) [
    | inl (e, _) ↦ ap g e
    | inr (e, _) ↦ ap g e ∙ same
  ]

  carries_one :
      (k : ℕ) (o : Option ℕ) → (k == id) ≡ false → carries id o ≡ true → carries k o ≡ false
  carries_one k none other h = refl
  carries_one k (some n) other h = ground arith

  forget-redeems :
      (k : ℕ) (o : Order F) → (k == id) ≡ false → redeems k (forget_promo id n o) ≡ redeems k o
  forget-redeems k o other = elim (forget-cases id n o) [
    | inl (e, _) ↦ ap (redeems k) e
    | inr (e, carried) ↦ ap (redeems k) e ∙ rw (carries_one k o.promo_code_id other carried)
  ]

  kept-refers :
      (o : Option ℕ)
      → carries id o ≡ false
      → refers (λ (p : PromoCode F). p.id) o db.promo_codes ≡ true
      → refers (λ (p : PromoCode F). p.id) o (delete_where (has_id id) db.promo_codes) ≡ true
  kept-refers none other h = refl
  kept-refers (some k) other h =
      any-delete_where (λ p. p.id == k) (has_id id) db.promo_codes (λ p same. ground arith) h

  forget-IsKnown :
      (o : Order F)
      → IsKnown db.promo_codes o
      → IsKnown (delete_where (has_id id) db.promo_codes) (forget_promo id n o)
  forget-IsKnown o known = elim (forget-cases id n o) [
    | inl (e, other) ↦ rw e (kept-refers o.promo_code_id other known)
    | inr (e, _) ↦ rw e
  ]

  forget-IsOrderly :
      IsOrderly db.orders → IsOrderly (update_where (λ o. true) (forget_promo id n) db.orders)
  forget-IsOrderly v = record {
    unique = λ k.
        rw
          (count-update_where_same (Orders.has_id k) (λ o. true) (forget_promo id n) db.orders
            (λ o. forget-keeps (Orders.has_id k) o refl))
          (v.unique k);
    one_active = λ u.
        rw
          (count-update_where_same (Orders.is_active u) (λ o. true) (forget_promo id n) db.orders
            (λ o. forget-keeps (Orders.is_active u) o refl))
          (v.one_active u);
  }

  pub delete_promo-IsBooked :
      (d : Db F) → IsBooked db → delete_promo id n db ≡ ok (tt, d) → IsBooked d
  unfolding delete_promo
  delete_promo-IsBooked d b h = record {
    orderly = rw rows (forget-IsOrderly b.orderly);
    known =
        rw (rows, codes)
          (All-update_where (IsKnown db.promo_codes)
            (IsKnown (delete_where (has_id id) db.promo_codes)) (λ o. true) (forget_promo id n)
            db.orders (λ o _ k. forget-IsKnown o k) (λ o e _. absurd (cc e)) b.known);
    counted =
        rw (rows, codes)
          (All-delete_where (IsCounted db.orders)
            (IsCounted (update_where (λ o. true) (forget_promo id n) db.orders)) (has_id id)
            db.promo_codes
            (λ p other c.
              c
              ∙ ap pos (
                  sym (
                    count-update_where_same (redeems p.id) (λ o. true) (forget_promo id n) db.orders
                      (λ o. forget-redeems p.id o other))))
            b.counted);
  }
    where
      rows : d.orders ≡ update_where (λ o. true) (forget_promo id n) db.orders
      rows = ground arith

      codes : d.promo_codes ≡ delete_where (has_id id) db.promo_codes
      codes = ground arith
