-- ===== src/Server/History/RateLimit.antt =====
-- The rate limit of `Create` through histories of requests.
use soa_hw.Prelude.{
  ℕ, ◌≤◌, ◌<◌, ◌≡◌, Bool, true, ◌&&◌, Option, some, List, [], ◌∷◌, any, any-append, any-append_last,
  select, String, leb, ltb, Bool-cases, Option-cases, inl, inr, arith,
}
use soa_hw.Prelude.Int.{ℤ, pos}
use soa_hw.Domain.{Product, UserOperation, OrderWithItems, operation_create_order}
use soa_hw.Domain.Promo.{PromoCode}
use soa_hw.Store.{Env, Db, World}
use soa_hw.Store.Action.{ok}
use soa_hw.Store.Outcome.{after_ok}
use soa_hw.Store.Keeps.{Keeps-Ends}
use soa_hw.Http.Reply.{Api}
use soa_hw.Users.Service.{Crypto}
use soa_hw.Operations.Contract.{Limits}
use soa_hw.Operations.Repository.{is_by, latest}
use soa_hw.Operations.Window.{ready_at, early-limit_at}
use soa_hw.Promos.Repository.{put_promo, insert_promo, update_promo, delete_promo}
use soa_hw.Promos.Valid.{with_amounts_ok}
use soa_hw.Orders.Service.{OrderItemRequest, create}
use soa_hw.Orders.Redemptions.{Logged, same_operations}
use soa_hw.Orders.Redemptions.Create.{Entered, create-Redeems}
use soa_hw.Orders.Redemptions.Change.{update-Keeps, cancel-Releases}
use soa_hw.Orders.Effects.Create.{MayPlace, create_places}
use soa_hw.Orders.Effects.Once.{IsRefused, Ends-IsRefused}
use soa_hw.Server.Config.{Settings}
use soa_hw.Server.Router.Calls.{Laws}
use soa_hw.Server.History.{History, history-Keeps}

module _ (start user_id : ℕ) where
  -- The user placed an order at this time or later.
  abbrev is_recent : UserOperation → Bool
  is_recent o = is_by user_id operation_create_order o && leb start o.created_at

  -- Then the last order that CheckRateLimit finds is as late.
  latest-Late :
      (xs : List UserOperation)
      → any (λ o. leb start o.created_at) xs ≡ true
      → (last : UserOperation) × (latest xs ≡ some last) × (start ≤ last.created_at)
  unfolding latest
  latest-Late [] h = absurd (cc h)
  latest-Late (o ∷ os) h = elim (Bool-cases (leb start o.created_at)) [
    | inl late ↦ elim (Option-cases (latest os)) [
      | inl e ↦ (o, rw e, ground arith)
      | inr (p, e) ↦ elim (Bool-cases (ltb o.created_at p.created_at)) [
        | inl less ↦ (p, rw (e, less), ground arith)
        | inr more ↦ (o, rw (e, more), ground arith)
      ]
    ]
    | inr early ↦
        let (last, e, late) = latest-Late os (rw early at h) in
        let less : ltb o.created_at last.created_at ≡ true = ground arith in
        (last, rw (e, less), late)
  ]

  select-recent :
      (xs : List UserOperation)
      → any is_recent xs ≡ true
      → any (λ o. leb start o.created_at) (select (is_by user_id operation_create_order) xs) ≡ true
  select-recent [] h = h
  select-recent (o ∷ os) h = ground (arith, select-recent os)

  module _ {F : Type 0} where
    abbrev HasRecent : Db F → Type 0
    HasRecent d = any is_recent d.user_operations ≡ true

    put_promo-operations :
        (env : Env F) (row : PromoCode F) (d d' : Db F)
        → put_promo env row d ≡ ok (tt, d')
        → d'.user_operations ≡ d.user_operations
    unfolding put_promo
    put_promo-operations env row d d' h = ground arith

    insert_promo-operations :
        (env : Env F) (p : PromoCode F) (n : ℕ) (d d' : Db F)
        → insert_promo env p n d ≡ ok (tt, d')
        → d'.user_operations ≡ d.user_operations
    unfolding insert_promo
    insert_promo-operations env p n d d' h =
        let (x, y, is_x, is_y, put) =
          with_amounts_ok env d (env.numeric p.discount_value) (env.numeric p.min_order_amount) _
            (tt, d') h in
        put_promo-operations env _ d d' put

    update_promo-operations :
        (env : Env F) (p : PromoCode F) (n : ℕ) (d d' : Db F)
        → update_promo env p n d ≡ ok (tt, d')
        → d'.user_operations ≡ d.user_operations
    unfolding update_promo
    update_promo-operations env p n d d' h =
        let (x, y, is_x, is_y, change) =
          with_amounts_ok env d (env.numeric p.discount_value) (env.numeric p.min_order_amount) _
            (tt, d') h in
        same_operations env _ _ n d d' change

    delete_promo-operations :
        (id n : ℕ) (d d' : Db F)
        → delete_promo id n d ≡ ok (tt, d')
        → d'.user_operations ≡ d.user_operations
    unfolding delete_promo
    delete_promo-operations id n d d' h = ground arith

    -- No request deletes an operation.
    operations_stay : (env : Env F) → Laws env HasRecent
    operations_stay env = record {
      frame = λ d d' s h. rw (s.user_operations) h;
      insert_promo = λ p n d d' unused h e. rw (insert_promo-operations env p n d d' e) h;
      update_promo = λ p n d d' h e. rw (update_promo-operations env p n d d' e) h;
      delete_promo = λ id n d d' h e. rw (delete_promo-operations id n d d' e) h;
      create_order = λ minutes user requests code.
          Keeps-Ends HasRecent _ _ (create-Redeems env minutes user requests code)
            (λ w r w' h q. rw (q.1.rows) (any-append is_recent w.db.user_operations _ h));
      update_order = λ id user requests.
          Keeps-Ends HasRecent _ _ (update-Keeps env id user requests) (λ w r w' h q. rw (q.1) h);
      cancel_order = λ id user.
          Keeps-Ends HasRecent _ _ (cancel-Releases env id user) (λ w r w' h q. rw (q.1) h);
    }

    recorded :
        (env : Env F) (before after : List UserOperation)
        → ((k : ℕ) → start ≤ env.timestamp (env.now k))
        → Logged env user_id before after
        → any is_recent after ≡ true
    recorded env before after later l = rw (l.rows) (
        any-append_last is_recent before l.row
          (rw (l.row_user, l.row_type, l.row_time) (ground (arith, later l.call))))

    -- `CheckRateLimit` refuses within the window.
    not_allowed :
        (env : Env F) (db : Db F) (minutes : ℕ)
        → minutes ≤ 1_440_000
        → ((k : ℕ) → env.now k < ready_at minutes start)
        → HasRecent db
        → ¬ (MayPlace env db (pos minutes) user_id)
    not_allowed env db minutes small early recent may =
        let (last, found, late) =
          latest-Late (select (is_by user_id operation_create_order) db.user_operations)
            (select-recent db.user_operations recent) in
        let (call, answer) : Limits env (pos minutes) (some last) may.answer =
          rw found at may.limits in
        absurd (
          cc (
            early-limit_at minutes last.created_at start (env.now call) small late (early call),
            answer,
            may.allowed,
          ))

-- After a successful call of `Create` for a user, no other call of `Create` for this user succeeds as
-- long as the window of the rate limit lasts, whatever requests the server has handled in between. The
-- window is at most 1000 days; it begins at a time that no time the database stored during the first
-- call is before, and the clock of the later call is always before its end.
pub rate_limit_holds :
    {F : Type 0} (c : Crypto) (s : Settings) (api : Api)
    (sort : ℕ → List (Product F) → List (Product F)) (scan : String → Option ℤ) (env : Env F)
    (window : ℤ) (user_id : ℕ) (requests : List OrderItemRequest) (code : Option String)
    (w : World F) (r : OrderWithItems F) (w' v : World F)
    → create env window user_id requests code w ≡ (ok r, w')
    → History c s api sort scan w' v
    → (start : ℕ) → ((k : ℕ) → start ≤ env.timestamp (env.now k))
    → (env' : Env F) (minutes : ℕ) → minutes ≤ 1_440_000
    → ((k : ℕ) → env'.now k < ready_at minutes start)
    → (requests' : List OrderItemRequest) (code' : Option String)
    → IsRefused (create env' (pos minutes) user_id requests' code' v)
rate_limit_holds c s api sort scan env window user_id requests code w r w' v first history start
      later env' minutes small early requests' code' =
    Ends-IsRefused v.db _ _
      (λ a u q.
        not_allowed start user_id env' v.db minutes small early
          (history-Keeps c s api sort scan _ (operations_stay start user_id) history
            (recorded start user_id env _ _ later entered.1))
          q.0)
      (create_places env' (pos minutes) user_id requests' code' v)
  where
    entered : Entered env w.db user_id r w'.db
    entered = after_ok w.db _ _ r w' first (create-Redeems env window user_id requests code w)
