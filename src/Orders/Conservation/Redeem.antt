-- ===== src/Orders/Conservation/Redeem.antt =====
-- The promo code parts of `Create` and `Cancel`.
use soa_hw.Prelude.{
  not-true, ℕ, ◌≡◌, refl, Bool, true, false, Option, none, some, find, String, str_eq, ◌⊎◌, inl,
  inr, if◌then◌else◌,
}
use soa_hw.Domain.Promo.{PromoCode, is_valid, calculate_discount}
use soa_hw.Store.{Env, Db}
use soa_hw.Store.Action.{pure}
use soa_hw.Store.Outcome.{
  Triple, Inside, Inside-IsSteady, Returns, Triple-bind, Triple-bind_fact, Triple-on_error,
  Triple-return, Triple-pure, Triple-weaken, Triple-raise_if, Triple-clock,
}
use soa_hw.Promos.Contract as Promos
use soa_hw.Orders.Inventory.Statements.{SameUnits, increment-SameUnits, decrement-SameUnits}
use soa_hw.Orders.Service.{apply_code, apply_promo, release_promo}

-- A code that was redeemed: it is in the committed table, it was valid at a time that the clock
-- gave, the total reaches its least amount, and the discount is the one that it gives.
pub record Redeemed {F : Type 0} (env : Env F) (db : Db F) (code : String) (total : F)
    (r : F × Option ℕ) : Type 0 where
  pub promo : PromoCode F
  pub time : ℕ
  pub call : ℕ
  pub is_now : time ≡ env.now call
  pub found : find (λ q. str_eq q.code code) db.promo_codes ≡ some promo
  pub valid : is_valid promo time ≡ true
  pub enough : env.double.ltb total promo.min_order_amount ≡ false
  pub result : r ≡ (calculate_discount env.double promo total, some promo.id)

-- No code, or an empty one, gives no discount.
abbrev pub Applied : {F : Type 0} → Env F → Db F → Option String → F → F × Option ℕ → Type 0
Applied env db none total r = r ≡ (env.double.zero, none)
Applied env db (some code) total r =
    ((str_eq code "" ≡ true) × (r ≡ (env.double.zero, none)))
    ⊎ ((str_eq code "" ≡ false) × Redeemed env db code total r)

module _ {F : Type 0} (env : Env F) {db : Db F} (P : Db F → Type 0)
    (frame : (d d' : Db F) → SameUnits d d' → P d → P d') where
  apply_code-Triple :
      (code : String) (total : F)
      → Triple db
          (Inside db P)
          (apply_code env code total)
          (Returns (Inside db P) (Redeemed env db code total))
  unfolding apply_code
  apply_code-Triple code total =
      Triple-bind_fact
        (Triple-on_error _ (Promos.get_by_code-Triple env code (Inside-IsSteady db _)))
        λ promo found. Triple-clock env (Inside-IsSteady db _) λ now call is_now.
          Triple-raise_if _ _ (Inside-IsSteady db _) λ valid.
            Triple-raise_if _ _ (Inside-IsSteady db _) λ enough.
              Triple-bind
                (Triple-on_error _ (
                  Promos.increment_uses-Triple env promo.id _ _
                    (λ n d d' p e. frame d d' (increment-SameUnits env promo.id n d d' e) p)))
                λ _. Triple-return _ (record {
                  promo = promo;
                  time = now;
                  call = call;
                  is_now = is_now;
                  found = found;
                  valid = not-true _ valid;
                  enough = enough;
                  result = refl;
                })

  pub apply_promo-Triple :
      (code : Option String) (total : F)
      → Triple db
          (Inside db P)
          (apply_promo env code total)
          (Returns (Inside db P) (Applied env db code total))
  unfolding apply_promo
  apply_promo-Triple none total = Triple-return _ refl
  apply_promo-Triple (some code) total = by_test (str_eq code "") refl
    where
      by_test :
          (b : Bool)
          → str_eq code "" ≡ b
          → Triple db
              (Inside db P)
              (if b then pure (env.double.zero, none) else apply_code env code total)
              (Returns (Inside db P) (Applied env db (some code) total))
      by_test true e = Triple-return _ (inl (e, refl))
      by_test false e =
          Triple-weaken (apply_code-Triple code total) (λ w p. p) (λ a w r. (r.0, inr (e, r.1)))

  pub release_promo-Triple :
      (id : Option ℕ) → Triple db (Inside db P) (release_promo env id) (λ _. Inside db P)
  unfolding release_promo
  release_promo-Triple none = Triple-pure tt
  release_promo-Triple (some id) = Triple-on_error _ (
      Promos.decrement_uses-Triple env id _ _
        (λ n d d' p e. frame d d' (decrement-SameUnits env id n d d' e) p))
