-- ===== src/Orders/Books/Counts.antt =====
-- The uses of promo codes, counted one more and one less.
use soa_hw.Prelude.{
  ℕ, suc, ◌≡◌, refl, sym, ap, ◌∙◌, true, false, ◌==◌, Bool-cases, Option, none, some, List, All,
  All-weaken, All-update_where, any-update_where, count, inl, inr, if◌then◌else◌, arith,
}
use soa_hw.Prelude.Int.{pos, ◌+ℤ◌, ◌-ℤ◌, ltb_ℤ}
use soa_hw.Domain.{Order}
use soa_hw.Domain.Status.{OrderStatus, canceled, can_transition_to, status_eq}
use soa_hw.Domain.Status
use soa_hw.Domain.Promo.{PromoCode}
use soa_hw.Store.Schema.{refers}
use soa_hw.Promos.Repository as Promos
use soa_hw.Promos.Repository.{use_once, give_back}
use soa_hw.Orders.Redemptions.{redeem, release}
use soa_hw.Orders.Books.{carries, redeems, IsCounted}

-- A use more and a use less, as the statements count.
one_more : (n : ℕ) → pos n +ℤ pos 1 ≡ pos (suc n)
unfolding ◌+ℤ◌
one_more n = ground arith

one_less : (n : ℕ) → pos (suc n) -ℤ pos 1 ≡ pos n
unfolding ◌-ℤ◌
one_less n = ground arith

pub not_canceled :
    (s : OrderStatus) → can_transition_to s canceled ≡ true → status_eq s canceled ≡ false
unfolding can_transition_to status_eq
not_canceled Status.created h = refl
not_canceled Status.payment_pending h = refl
not_canceled Status.paid h = refl
not_canceled Status.shipped h = refl
not_canceled Status.completed h = refl
not_canceled Status.canceled h = cc
not_canceled (Status.other s) h = refl

eq_comm : (a b : ℕ) → (a == b) ≡ (b == a)
eq_comm a b = ground arith

module _ {F : Type 0} (orders orders' : List (Order F)) where
  pub redeem-IsCounted :
      (code : Option ℕ) (promos : List (PromoCode F))
      → ((id : ℕ)
          → count (redeems id) orders' ≡ (
              if carries id code
              then suc (count (redeems id) orders)
              else count (redeems id) orders))
      → All (IsCounted orders) promos
      → All (IsCounted orders') (redeem code promos)
  redeem-IsCounted none promos h =
      All-weaken (IsCounted orders) (IsCounted orders') promos λ p c. c ∙ ap pos (sym (h p.id))
  redeem-IsCounted (some k) promos h =
      All-update_where (IsCounted orders) (IsCounted orders') (Promos.has_id k) use_once promos
        (λ p e c.
          ap (λ n. n +ℤ pos 1) c ∙ one_more _ ∙ ap pos (sym (rw (eq_comm k p.id, e) at (h p.id))))
        (λ p e c. c ∙ ap pos (sym (rw (eq_comm k p.id, e) at (h p.id))))

  pub release-IsCounted :
      (code : Option ℕ) (promos : List (PromoCode F))
      → ((id : ℕ)
          → count (redeems id) orders ≡ (
              if carries id code
              then suc (count (redeems id) orders')
              else count (redeems id) orders'))
      → All (IsCounted orders) promos
      → All (IsCounted orders') (release code promos)
  release-IsCounted none promos h =
      All-weaken (IsCounted orders) (IsCounted orders') promos λ p c. c ∙ ap pos (h p.id)
  release-IsCounted (some k) promos h =
      All-update_where (IsCounted orders) (IsCounted orders') (Promos.is_used k) give_back promos
        (λ p e c. less p (ground arith) c)
        (λ p e c. elim (Bool-cases (p.id == k)) [
          | inl same ↦ absurd (unused p same (rw same at e) c)
          | inr other ↦ c ∙ ap pos (rw (eq_comm k p.id, other) at (h p.id))
        ])
    where
      counted :
          (p : PromoCode F)
          → (p.id == k) ≡ true
          → IsCounted orders p
          → p.current_uses ≡ pos (suc (count (redeems p.id) orders'))
      counted p e c = c ∙ ap pos (rw (eq_comm k p.id, e) at (h p.id))

      less :
          (p : PromoCode F)
          → (p.id == k) ≡ true
          → IsCounted orders p
          → IsCounted orders' (give_back p)
      less p e c = ap (λ n. n -ℤ pos 1) (counted p e c) ∙ one_less _

      unused :
          (p : PromoCode F)
          → (p.id == k) ≡ true
          → ltb_ℤ (pos 0) p.current_uses ≡ false
          → ¬ (IsCounted orders p)
      unused p e none_left c = absurd (ground (arith, counted p e c))

  pub use_once-IsKnown :
      (code : Option ℕ) (promos : List (PromoCode F)) (o : Option ℕ)
      → refers (λ (p : PromoCode F). p.id) o promos
        ≡ refers (λ (p : PromoCode F). p.id) o (redeem code promos)
  use_once-IsKnown none promos o = refl
  use_once-IsKnown (some k) promos none = refl
  use_once-IsKnown (some k) promos (some n) =
      sym (any-update_where (λ p. p.id == n) (Promos.has_id k) use_once promos λ p. refl)

  pub release-IsKnown :
      (code : Option ℕ) (promos : List (PromoCode F)) (o : Option ℕ)
      → refers (λ (p : PromoCode F). p.id) o promos
        ≡ refers (λ (p : PromoCode F). p.id) o (release code promos)
  release-IsKnown none promos o = refl
  release-IsKnown (some k) promos none = refl
  release-IsKnown (some k) promos (some n) =
      sym (any-update_where (λ p. p.id == n) (Promos.is_used k) give_back promos λ p. refl)
