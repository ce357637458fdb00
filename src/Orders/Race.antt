-- ===== src/Orders/Race.antt =====
-- Two concurrent requests that place an order for one user: their steps are interleaved so that both
-- pass the checks of `Create` before either has begun its transaction.
use soa_hw.Prelude.{
  ℕ, suc, ◌≡◌, refl, sym, ap, ◌∙◌, subst, Bool, not, Option, none, some, List, find, count,
  count-find, count-append_one, ==_refl, String, arith,
}
use soa_hw.Prelude.Int.{ℤ}
use soa_hw.Domain.{Order, OrderWithItems, operation_create_order}
use soa_hw.Domain.Status.{created}
use soa_hw.Store.{Env, Db, World}
use soa_hw.Store.Action.{
  Result, ok, err, Action, wrap, failed_to_check_rate_limit, failed_to_check_active_orders,
  rate_limit_exceeded, user_already_has_an_active_order, pure, raise_if, on_error, defer_rollback,
  proceed, ◌>>=◌, ◌>>◌,
}
use soa_hw.Store.Outcome.{
  Triple, Outside, Outside-IsSteady, Triple-bind_fact, Triple-on_error, Triple-raise_if,
  Triple-weaken, Triple-defer_rollback, after_ok,
}
use soa_hw.Operations.Contract as Operations
use soa_hw.Operations.Repository.{check_rate_limit}
use soa_hw.Orders.Contract as Orders
use soa_hw.Orders.Repository.{is_active, get_active_order_by_user_id}
use soa_hw.Orders.Service.{OrderItemRequest, is_some, create_in_tx, create}
use soa_hw.Orders.Effects.Create.{Placed, create_in_tx-Placed}

-- What a caller sends.
pub record Call : Type 0 where
  pub items : List OrderItemRequest
  pub promo_code : Option String

module _ {F : Type 0} (env : Env F) (user_id : ℕ) where
  -- `Create` from BeginTx on, with its deferred Rollback.
  unfoldable pub transact : Call → Action F (OrderWithItems F)
  transact call = defer_rollback (create_in_tx env user_id call.items call.promo_code)

module _ {F : Type 0} (env : Env F) (minutes : ℤ) (user_id : ℕ) where
  -- `Create` before BeginTx.
  unfoldable pub may_create : Action F (Unit {0})
  may_create = do
    limit ←
        on_error (wrap failed_to_check_rate_limit)
          (check_rate_limit env user_id operation_create_order minutes)
    raise_if (not limit.0) (rate_limit_exceeded limit.1)
    active ← on_error (wrap failed_to_check_active_orders) (get_active_order_by_user_id env user_id)
    raise_if (is_some env active) user_already_has_an_active_order

  -- Both requests check, then the one and then the other runs its transaction.
  unfoldable pub race : Call → Call → Action F (OrderWithItems F × OrderWithItems F)
  race a b = do
    may_create
    may_create
    first ← transact env user_id a
    second ← transact env user_id b
    pure (first, second)

module _ {F : Type 0} where
  proceed-proceed :
      {A B C : Type 0} (r : Result A × World F) (f : A → Action F B) (g : B → Action F C)
      → proceed (proceed r f) g ≡ proceed r (λ a. f a >>= g)
  unfolding ◌>>=◌
  proceed-proceed (ok a, w) f g = refl
  proceed-proceed (err e, w) f g = refl

  proceed_ok :
      {A B : Type 0} (r : Result A × World F) (f : A → Action F B) (b : B) (w' : World F)
      → proceed r f ≡ (ok b, w')
      → (a : A) × (w : World F) × (r ≡ (ok a, w)) × (f a w ≡ (ok b, w'))
  proceed_ok (ok a, w) f b w' h = (a, w, refl, h)
  proceed_ok (err e, w) f b w' h = absurd (no_result h)
    where
      no_result : ¬ (◌≡◌ {A = Result _ × World F} (err e, w) (ok b, w'))
      no_result h = cc

module _ {F : Type 0} (env : Env F) (minutes : ℤ) (user_id : ℕ) where
  -- `Create` is its checks and then its transaction.
  create-may_create :
      (call : Call) (w : World F)
      → create env minutes user_id call.items call.promo_code w
        ≡ (may_create env minutes user_id >>= λ _. transact env user_id call) w
  unfolding create may_create transact ◌>>=◌
  create-may_create call w =
      sym (
        proceed-proceed (limited w) _ _ ∙ ap (proceed (limited w)) (λ i limit v. allowed limit v i))
    where
      none_active : Option (Order F) → Action F (Unit {0})
      none_active active = raise_if (is_some env active) user_already_has_an_active_order

      check_active : Action F (Option (Order F))
      check_active =
          on_error (wrap failed_to_check_active_orders) (get_active_order_by_user_id env user_id)

      run : Unit {0} → Action F (OrderWithItems F)
      run _ = transact env user_id call

      within : Bool × ℤ → Action F (Unit {0})
      within limit = raise_if (not limit.0) (rate_limit_exceeded limit.1)

      allowed :
          (limit : Bool × ℤ) (v : World F)
          → ((within limit >> (check_active >>= none_active)) >>= run) v
            ≡ (within limit >> (check_active >>= λ active. none_active active >>= run)) v
      allowed limit v =
          proceed-proceed (within limit v) (λ _. check_active >>= none_active) run
          ∙ ap (proceed (within limit v))
              (λ i _ v'. proceed-proceed (check_active v') none_active run i)

      limited : Action F (Bool × ℤ)
      limited =
          on_error (wrap failed_to_check_rate_limit)
            (check_rate_limit env user_id operation_create_order minutes)

module _ {F : Type 0} (env : Env F) (minutes : ℤ) (user_id : ℕ) (db : Db F) where
  raise_if_some :
      (active : Option (Order F))
      → Triple db
          (Outside db)
          (raise_if (is_some env active) user_already_has_an_active_order)
          (λ _ w. Outside db w × (active ≡ none))
  unfolding raise_if
  raise_if_some none = record { run = λ w p. (p, refl) }
  raise_if_some (some o) = record { run = λ w p. p.same }

  may_create-Triple :
      Triple db
        (Outside db)
        (may_create env minutes user_id)
        (λ _ w. Outside db w × (find (is_active user_id) db.orders ≡ none))
  unfolding may_create
  may_create-Triple =
      Triple-bind_fact
        (Triple-on_error _
          (Operations.check_rate_limit-Triple env user_id _ minutes (Outside-IsSteady db)))
        λ limit l. Triple-raise_if _ _ (Outside-IsSteady db) λ allowed.
          Triple-bind_fact
            (Triple-on_error _ (Orders.get_active_order-Triple env user_id (Outside-IsSteady db)))
            λ active a. Triple-weaken (raise_if_some active) (λ w p. p) (λ _ w p. (p.0, a ∙ p.1))

  transact-Triple :
      (call : Call)
      → Triple db
          (Outside db)
          (transact env user_id call)
          (λ r w. Placed env db user_id call.items call.promo_code r w.db.orders)
  unfolding transact
  transact-Triple call =
      Triple-defer_rollback (λ r d. Placed env db user_id call.items call.promo_code r d.orders)
        (create_in_tx-Placed env db user_id call.items call.promo_code)

module _ {F : Type 0} (user_id : ℕ) where
  -- An order placed adds one active order of the user.
  Placed-count :
      (env : Env F) (db : Db F) (call : Call) (r : OrderWithItems F) (orders : List (Order F))
      → Placed env db user_id call.items call.promo_code r orders
      → count (is_active user_id) orders ≡ suc (count (is_active user_id) db.orders)
  unfolding soa_hw.Domain.Status.status_eq
  Placed-count env db call r orders p =
      rw
        (
          p.rows,
          count-append_one (is_active user_id) db.orders p.row,
          p.row_user,
          p.row_status,
          ==_refl user_id,
        )
        (omega arith)

module _ {F : Type 0} (env : Env F) (minutes : ℤ) (user_id : ℕ) (a b : Call) where
  race_steps :
      (w w1 w2 w3 w4 : World F) (u u' : Unit {0}) (o o' : OrderWithItems F)
      → may_create env minutes user_id w ≡ (ok u, w1)
      → may_create env minutes user_id w1 ≡ (ok u', w2)
      → transact env user_id a w2 ≡ (ok o, w3)
      → transact env user_id b w3 ≡ (ok o', w4)
      → (count (is_active user_id) w.db.orders ≡ 0) × (count (is_active user_id) w4.db.orders ≡ 2)
  race_steps w w1 w2 w3 w4 u u' o o' e1 e2 e3 e4 = (
    none_before,
    Placed-count user_id env w3.db b o' w4.db.orders placed'
        ∙ ap suc (Placed-count user_id env w.db a o w3.db.orders placed ∙ ap suc none_before),
  )
    where
      checked : Outside w.db w1 × (find (is_active user_id) w.db.orders ≡ none)
      checked =
          after_ok w.db _ _ u w1 e1
            ((may_create-Triple env minutes user_id w.db).run w (record { same = refl }))

      checked_again : Outside w.db w2 × (find (is_active user_id) w.db.orders ≡ none)
      checked_again =
          after_ok w.db _ _ u' w2 e2 ((may_create-Triple env minutes user_id w.db).run w1 checked.0)

      placed : Placed env w.db user_id a.items a.promo_code o w3.db.orders
      placed =
          after_ok w.db _ _ o w3 e3
            ((transact-Triple env minutes user_id w.db a).run w2 checked_again.0)

      placed' : Placed env w3.db user_id b.items b.promo_code o' w4.db.orders
      placed' =
          after_ok w3.db _ _ o' w4 e4
            ((transact-Triple env minutes user_id w3.db b).run w3 (record { same = refl }))

      none_before : count (is_active user_id) w.db.orders ≡ 0
      none_before = count-find (is_active user_id) w.db.orders checked.1

-- If the checks of two calls of `Create` for one user both run before either has begun its transaction,
-- and both calls succeed, then the user, who had no active order, has two.
pub race_lem :
    {F : Type 0} (env : Env F) (minutes : ℤ) (user_id : ℕ) (a b : Call) (w w' : World F)
    (first second : OrderWithItems F)
    → race env minutes user_id a b w ≡ (ok (first, second), w')
    → (count (is_active user_id) w.db.orders ≡ 0) × (count (is_active user_id) w'.db.orders ≡ 2)
unfolding race ◌>>=◌ pure
race_lem env minutes user_id a b w w' first second h =
    let (_, w1, e1, h1) = proceed_ok (may_create env minutes user_id w) _ _ w' h in
    let (_, w2, e2, h2) = proceed_ok (may_create env minutes user_id w1) _ _ w' h1 in
    let (o, w3, e3, h3) = proceed_ok (transact env user_id a w2) _ _ w' h2 in
    let (o', w4, e4, h4) = proceed_ok (transact env user_id b w3) _ _ w' h3 in
    let steps = race_steps env minutes user_id a b w w1 w2 w3 w4 _ _ o o' e1 e2 e3 e4 in
    (steps.0, subst (λ v. count (is_active user_id) v.db.orders ≡ 2) (ap (λ q. q.1) h4) steps.1)
