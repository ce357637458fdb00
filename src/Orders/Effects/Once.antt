-- ===== src/Orders/Effects/Once.antt =====
-- A canceled order, through the calls of the service that follow.
use soa_hw.Prelude.{
  ℕ, ◌≡◌, refl, true, false, ◌==◌, ==_iff, some, List, [], ◌∷◌, ◌++◌, find, update_where,
  Bool-cases, inl, inr, find-key_update, if◌then◌else◌, arith,
}
use soa_hw.Domain.{Order, OrderWithItems}
use soa_hw.Domain.Status.{canceled, can_transition_to}
use soa_hw.Store.{Env, Db, World}
use soa_hw.Store.Action.{Result, ok, err}
use soa_hw.Store.Outcome.{after_ok, Ends}
use soa_hw.Orders.Repository.{has_id, overwrite}
use soa_hw.Orders.Service.{create, update, cancel}
use soa_hw.Orders.Effects.Create.{create_places}
use soa_hw.Orders.Effects.Change.{Owned, Canceled, Overwrites, update_replaces, cancel_cancels}
use soa_hw.Orders.Effects.Active.{◌⇝◌, ◌⇝*◌, creates, updates, cancels, idle, next, Ends-Stays}

-- The call did not succeed.
abbrev pub IsRefused : {F A : Type 0} → Result A × World F → Type 0
IsRefused (ok a, w) = ⊥
IsRefused (err e, w) = Unit

-- The order under this identifier is there, and canceled.
abbrev pub IsVoid : {F : Type 0} → ℕ → List (Order F) → Type 0
IsVoid {F = F} id orders =
    (o : Order F) × (find (has_id id) orders ≡ some o) × (o.status ≡ canceled)

no_way_out : can_transition_to canceled canceled ≡ false
unfolding can_transition_to
no_way_out = refl

pub Ends-IsRefused :
    {F A : Type 0} (db : Db F) (Q : A → World F → Type 0) (r : Result A × World F)
    → ((a : A) (w : World F) → ¬ Q a w)
    → Ends db Q r
    → IsRefused r
Ends-IsRefused db Q (ok a, w) f h = f a w h
Ends-IsRefused db Q (err e, w) f h = tt

module _ {F : Type 0} where
  find-append :
      (k : ℕ) (xs ys : List (Order F)) (o : Order F)
      → find (has_id k) xs ≡ some o
      → find (has_id k) (xs ++ ys) ≡ some o
  find-append k [] ys o h = absurd (cc)
  find-append k (x ∷ xs) ys o h = ground (arith, find-append k xs ys o)

  module _ (env : Env F) (db : Db F) (id : ℕ) (new old : Order F) (orders : List (Order F))
      (m : Overwrites env db id new orders) (found : find (has_id id) db.orders ≡ some old) where
    found_at :
        (k : ℕ)
        → find
            (has_id k)
            (update_where (has_id id) (overwrite new m.total m.discount m.time) db.orders)
          ≡ (if id == k
              then some (overwrite new m.total m.discount m.time old)
              else find (has_id k) db.orders)
    found_at k =
        find-key_update (λ o. o.id) k id (overwrite new m.total m.discount m.time) db.orders old
          (λ o. refl) found

    overwrites-IsVoid :
        (k : ℕ)
        → (id ≡ k → new.status ≡ canceled)
        → ((id == k) ≡ false → IsVoid k db.orders)
        → IsVoid k orders
    overwrites-IsVoid k self other = elim (Bool-cases (id == k)) [
      | inl e ↦ (
        overwrite new m.total m.discount m.time old,
        rw (m.rows, found_at k, e),
        self ((==_iff id k).0 e),
      )
      | inr e ↦ let (o, there, status) = other e in (o, rw (m.rows, found_at k, e) there, status)
    ]

  -- An order that was canceled stays so.
  step-IsVoid : (id : ℕ) {v w : World F} → v ⇝ w → IsVoid id v.db.orders → IsVoid id w.db.orders
  step-IsVoid id (creates {w = w} env minutes user_id requests code) c =
      Ends-Stays (IsVoid id) w.db _ (create env minutes user_id requests code w) c
        (λ r w' q. rw (q.1.rows) ((c.0, find-append id w.db.orders _ c.0 c.1, c.2)))
        (create_places env minutes user_id requests code w)
  step-IsVoid id (updates {w = w} env k user_id requests) c =
      Ends-Stays (IsVoid id) w.db _ (update env k user_id requests w) c
        (λ r w' q.
          overwrites-IsVoid env w.db k r.order q.0.order w'.db.orders q.1.overwrites q.0.found id
            (λ same. kept q.0 r.order.status same q.1.same_status) (λ _. c))
        (update_replaces env k user_id requests w)
    where
      kept :
          (m : Owned w.db k user_id) (status : _)
          → k ≡ id
          → status ≡ m.order.status
          → status ≡ canceled
      kept m status same e = cc (m.found, c.1, c.2)
  step-IsVoid id (cancels {w = w} env k user_id) c =
      Ends-Stays (IsVoid id) w.db _ (cancel env k user_id w) c
        (λ r w' q.
          overwrites-IsVoid env w.db k r.order q.0.order w'.db.orders q.2.overwrites q.0.found id
            (λ _. q.2.status) (λ _. c))
        (cancel_cancels env k user_id w)

  stays-IsVoid : (id : ℕ) {v w : World F} → v ⇝* w → IsVoid id v.db.orders → IsVoid id w.db.orders
  stays-IsVoid id idle c = c
  stays-IsVoid id (next s r) c = stays-IsVoid id r (step-IsVoid id s c)

  cancel-IsRefused :
      (env : Env F) (id user_id : ℕ) (w : World F)
      → IsVoid id w.db.orders
      → IsRefused (cancel env id user_id w)
  cancel-IsRefused env id user_id w (o, there, status) =
      Ends-IsRefused w.db _ (cancel env id user_id w) (λ r v q. no_second q.0 q.1)
        (cancel_cancels env id user_id w)
    where
      no_second : (m : Owned w.db id user_id) → ¬ (can_transition_to m.order.status canceled ≡ true)
      no_second m may = absurd (cc (no_way_out, may, m.found, there, status))

-- After an order was canceled by one call, it stays canceled through every sequence of calls of
-- Create, Update and Cancel, for any order, by anyone and whatever the driver does, and then every
-- call of Cancel for it is refused.
pub canceled_once :
    {F : Type 0} (env : Env F) (id user_id : ℕ) (w : World F) (r : OrderWithItems F)
    (w' v : World F)
    → cancel env id user_id w ≡ (ok r, w')
    → w' ⇝* v
    → (env' : Env F) (user_id' : ℕ) → IsVoid id v.db.orders × IsRefused (cancel env' id user_id' v)
canceled_once env id user_id w r w' v e later env' user_id' =
    (still, cancel-IsRefused env' id user_id' v still)
  where
    first :
        (m : Owned w.db id user_id) × (can_transition_to m.order.status canceled ≡ true)
        × Canceled env w.db id m.order r w'.db.orders
    first = after_ok w.db _ _ r w' e (cancel_cancels env id user_id w)

    not_itself : ¬ ((id == id) ≡ false)
    not_itself h = ground arith

    still : IsVoid id v.db.orders
    still = stays-IsVoid id later (
        overwrites-IsVoid env w.db id r.order first.0.order w'.db.orders first.2.overwrites
          first.0.found id (λ _. first.2.status) (λ other. absurd (not_itself other)))
