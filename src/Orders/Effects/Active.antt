-- ===== src/Orders/Effects/Active.antt =====
-- The rule that a user has at most one active order, and how it is kept from request to request.
use soa_hw.Prelude.{
  ℕ, ◌≤◌, ◌≡◌, refl, sym, ◌∙◌, Bool, ◌&&◌, ◌||◌, true, false, Option, List, count, count-append_le,
  subst, count-any, count-find, count-update_where_same, count-update_where_le,
  count-update_where_one, ◌==◌, ==_iff, arith, String,
}
use soa_hw.Prelude.Int.{ℤ}
use soa_hw.Domain.{Order, OrderWithItems}
use soa_hw.Domain.Status.{created, payment_pending, canceled, status_eq}
use soa_hw.Store.{Env, Db, World}
use soa_hw.Store.Action.{Result, ok, err}
use soa_hw.Store.Outcome.{Ends}
use soa_hw.Orders.Repository.{has_id, is_active, overwrite}
use soa_hw.Orders.Service.{OrderItemRequest, create, update, cancel}
use soa_hw.Orders.Effects.Create.{MayPlace, Placed, create_places}
use soa_hw.Orders.Effects.Change.{Owned, Replaced, Canceled, update_replaces, cancel_cancels}

-- Identifiers are unique, and no user has two active orders.
pub record IsOrderly {F : Type 0} (orders : List (Order F)) : Type 0 where
  pub unique : (id : ℕ) → count (has_id id) orders ≤ 1
  pub one_active : (user_id : ℕ) → count (is_active user_id) orders ≤ 1

never_active :
    (b : Bool) → (b && (status_eq canceled created || status_eq canceled payment_pending)) ≡ false
unfolding status_eq
never_active true = refl
never_active false = refl

module _ {F : Type 0} where
  pub create-IsOrderly :
      (env : Env F) (db : Db F) (minutes : ℤ) (user_id : ℕ) (requests : List OrderItemRequest)
      (code : Option String) (r : OrderWithItems F) (orders : List (Order F))
      → IsOrderly db.orders
      → MayPlace env db minutes user_id
      → Placed env db user_id requests code r orders
      → IsOrderly orders
  create-IsOrderly env db minutes user_id requests code r orders v m p = record {
    unique = λ id. rw (p.rows) (
        count-append_le (has_id id) db.orders p.row (v.unique id) λ same.
          rw (sym ((==_iff p.row.id id).0 same), p.row_id)
            (count-any (has_id r.order.id) db.orders p.fresh));
    one_active = λ u.
        rw (p.rows)
          (count-append_le (is_active u) db.orders p.row (v.one_active u) λ same. none_of u same);
  }
    where
      none_of : (u : ℕ) → is_active u p.row ≡ true → count (is_active u) db.orders ≡ 0
      none_of u same =
          subst (λ x. count (is_active x) db.orders ≡ 0)
            (sym p.row_user ∙ (==_iff p.row.user_id u).0 (ground arith))
            (count-find (is_active user_id) db.orders m.none_active)

  pub update-IsOrderly :
      (env : Env F) (db : Db F) (id user_id : ℕ) (requests : List OrderItemRequest)
      (r : OrderWithItems F) (orders : List (Order F))
      → IsOrderly db.orders
      → (m : Owned db id user_id) → Replaced env db id m.order requests r orders
      → IsOrderly orders
  update-IsOrderly env db id user_id requests r orders v m p = record {
    unique = λ k.
        rw
          (
            p.overwrites.rows,
            count-update_where_same (has_id k) (has_id id)
                (overwrite r.order p.overwrites.total p.overwrites.discount p.overwrites.time)
                db.orders λ x. refl,
          )
          (v.unique k);
    one_active = λ u.
        rw
          (
            p.overwrites.rows,
            count-update_where_one (is_active u) (has_id id)
                (overwrite r.order p.overwrites.total p.overwrites.discount p.overwrites.time)
                db.orders m.order m.found (v.unique id) (rw (p.same_status)),
          )
          (v.one_active u);
  }

  pub cancel-IsOrderly :
      (env : Env F) (db : Db F) (id : ℕ) (o : Order F) (r : OrderWithItems F)
      (orders : List (Order F))
      → IsOrderly db.orders
      → Canceled env db id o r orders
      → IsOrderly orders
  cancel-IsOrderly env db id o r orders v p = record {
    unique = λ k.
        rw
          (
            p.overwrites.rows,
            count-update_where_same (has_id k) (has_id id)
                (overwrite r.order p.overwrites.total p.overwrites.discount p.overwrites.time)
                db.orders λ x. refl,
          )
          (v.unique k);
    one_active = λ u. rw (p.overwrites.rows) (
        omega (
          arith,
          v.one_active u,
          count-update_where_le (is_active u) (has_id id)
              (overwrite r.order p.overwrites.total p.overwrites.discount p.overwrites.time)
              db.orders (not_active u),
        ));
  }
    where
      not_active :
          (u : ℕ) (x : Order F)
          → is_active u
              (overwrite r.order p.overwrites.total p.overwrites.discount p.overwrites.time x)
            ≡ false
      not_active u x = rw (p.status) (never_active (x.user_id == u))

  -- One request to the service, with whatever happens to it on the way.
  infix 40 ◌⇝◌ ◌⇝*◌
  pub data ◌⇝◌ : World F → World F → Type 0 where
    creates :
        {w : World F} (env : Env F) (minutes : ℤ) (user_id : ℕ) (requests : List OrderItemRequest)
        (code : Option String)
        → w ⇝ (create env minutes user_id requests code w).1
    updates :
        {w : World F} (env : Env F) (id user_id : ℕ) (requests : List OrderItemRequest)
        → w ⇝ (update env id user_id requests w).1
    cancels : {w : World F} (env : Env F) (id user_id : ℕ) → w ⇝ (cancel env id user_id w).1

  -- Requests one after the other.
  pub data ◌⇝*◌ : World F → World F → Type 0 where
    idle : {w : World F} → w ⇝* w
    next : {u v w : World F} → u ⇝ v → v ⇝* w → u ⇝* w

  -- A property of the orders that holds after a success still holds after a failure.
  pub Ends-Stays :
      (P : List (Order F) → Type 0) {A : Type 0} (db : Db F) (Q : A → World F → Type 0)
      (r : Result A × World F)
      → P db.orders
      → ((a : A) (w : World F) → Q a w → P w.db.orders)
      → Ends db Q r
      → P r.1.db.orders
  Ends-Stays P db Q (ok a, w) v f h = f a w h
  Ends-Stays P db Q (err e, w) v f h = rw h v

  step-IsOrderly : {v w : World F} → v ⇝ w → IsOrderly v.db.orders → IsOrderly w.db.orders
  step-IsOrderly (creates {w = w} env minutes user_id requests code) v =
      Ends-Stays IsOrderly w.db _ (create env minutes user_id requests code w) v
        (λ r w' q. create-IsOrderly env w.db minutes user_id requests code r w'.db.orders v q.0 q.1)
        (create_places env minutes user_id requests code w)
  step-IsOrderly (updates {w = w} env id user_id requests) v =
      Ends-Stays IsOrderly w.db _ (update env id user_id requests w) v
        (λ r w' q. update-IsOrderly env w.db id user_id requests r w'.db.orders v q.0 q.1)
        (update_replaces env id user_id requests w)
  step-IsOrderly (cancels {w = w} env id user_id) v =
      Ends-Stays IsOrderly w.db _ (cancel env id user_id w) v
        (λ r w' q. cancel-IsOrderly env w.db id q.0.order r w'.db.orders v q.2)
        (cancel_cancels env id user_id w)

-- If the identifiers of orders are unique and no user has two active orders, then this stays so
-- through any sequence of calls of `Create`, `Update` and `Cancel`, one after the other, those that
-- fail included.
pub requests-IsOrderly :
    {F : Type 0} {v w : World F} → v ⇝* w → IsOrderly v.db.orders → IsOrderly w.db.orders
requests-IsOrderly idle o = o
requests-IsOrderly (next s r) o = requests-IsOrderly r (step-IsOrderly s o)
