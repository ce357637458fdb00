-- ===== src/Orders/Redemptions.antt =====
-- The tables of promo codes and of operations, as `Create` and `Cancel` write it.
pub mod Create
pub mod Change
use soa_hw.Prelude.{
  ℕ, ◌≡◌, refl, ◌∙◌, ap, Bool, true, false, Option, none, some, List, [], ◌∷◌, ◌++◌, find,
  update_where, String, str_eq, Option-cases, inl, inr, find-none-update_where, if◌then◌else◌,
  arith,
}
use soa_hw.Prelude.Int.{ℤ}
use soa_hw.Domain.{UserOperation, operation_create_order}
use soa_hw.Domain.Promo.{PromoCode}
use soa_hw.Store.{Env, Db, World}
use soa_hw.Store.Action.{ok, pure}
use soa_hw.Store.Outcome.{
  Ends, Triple, Outside, Inside, Inside-IsSteady, Outside-IsSteady, Triple-bind, Triple-bind_fact,
  Triple-on_error, Triple-pure, Triple-weaken, Triple-raise_if, Triple-uuid_new, Triple-time_now,
  Triple-defer_rollback,
}
use soa_hw.Store.Statements.{Triple-commit}
use soa_hw.Promos.Repository.{
  has_id, is_used, use_once, give_back, change_promo, increment, decrement,
}
use soa_hw.Promos.Contract as Promos
use soa_hw.Operations.Repository.{insert_operation}
use soa_hw.Operations.Contract as Operations
use soa_hw.Orders.Contract as Orders
use soa_hw.Orders.Inventory.Statements.{
  SameBooks, insert_order-AddedOrder, insert_operation-Logged, update_order-ChangedOrder,
  delete_items-DeletedItems,
}
use soa_hw.Orders.Service.{
  OrderItemRequest, nil_uuid, apply_code, apply_promo, place_order, create_in_tx, create,
  replace_order, update_in_tx, update, release_promo, cancel_in_tx, cancel,
}
use soa_hw.Orders.Effects.Frames.{
  begin_tx-Inside, restore_stock-Frame, create_items-Frame, reserve_items-Frame,
}

module _ {F : Type 0} where
  -- The rows after one use more of a code, and after one use less.
  abbrev pub redeem : Option ℕ → List (PromoCode F) → List (PromoCode F)
  redeem none rows = rows
  redeem (some id) rows = update_where (has_id id) use_once rows

  abbrev pub release : Option ℕ → List (PromoCode F) → List (PromoCode F)
  release none rows = rows
  release (some id) rows = update_where (is_used id) give_back rows

  -- The tables of promo codes and of operations have these rows.
  abbrev pub Kept : List (PromoCode F) → List UserOperation → Db F → Type 0
  Kept codes operations d = (d.promo_codes ≡ codes) × (d.user_operations ≡ operations)

  pub Kept-frame :
      (codes : List (PromoCode F)) (operations : List UserOperation) (d d' : Db F)
      → SameBooks d d'
      → Kept codes operations d
      → Kept codes operations d'
  Kept-frame codes operations d d' s h = (s.promo_codes ∙ h.0, s.user_operations ∙ h.1)

-- The operation of a user's new order was recorded, at a time that the clock gave.
pub record Logged {F : Type 0} (env : Env F) (user_id : ℕ) (before after : List UserOperation)
    : Type 0 where
  pub row : UserOperation
  pub rows : after ≡ before ++ row ∷ []
  pub row_user : row.user_id ≡ user_id
  pub row_type : row.operation_type ≡ operation_create_order
  pub call : ℕ
  pub row_time : row.created_at ≡ env.timestamp (env.now call)

module _ {F : Type 0} (env : Env F) where
  pub changed_rows :
      (test : PromoCode F → Bool) (f : PromoCode F → PromoCode F) (n : ℕ) (d d' : Db F)
      → change_promo env test f n d ≡ ok (tt, d')
      → d'.promo_codes ≡ update_where test f d.promo_codes
  unfolding change_promo
  changed_rows test f n d d' h = elim (Option-cases (find test d.promo_codes)) [
    | inl e ↦ ground (arith, find-none-update_where test f d.promo_codes)
    | inr (p, e) ↦ ground arith
  ]

  pub same_operations :
      (test : PromoCode F → Bool) (f : PromoCode F → PromoCode F) (n : ℕ) (d d' : Db F)
      → change_promo env test f n d ≡ ok (tt, d')
      → d'.user_operations ≡ d.user_operations
  unfolding change_promo
  same_operations test f n d d' h = ground arith

  pub increment_rows :
      (id n : ℕ) (d d' : Db F) (codes : List (PromoCode F)) (operations : List UserOperation)
      → Kept codes operations d
      → increment env id n d ≡ ok (tt, d')
      → Kept (redeem (some id) codes) operations d'
  unfolding increment
  increment_rows id n d d' codes operations k h = (
    changed_rows (has_id id) use_once n d d' h ∙ ap (redeem (some id)) k.0,
    same_operations (has_id id) use_once n d d' h ∙ k.1,
  )

  pub decrement_rows :
      (id n : ℕ) (d d' : Db F) (codes : List (PromoCode F)) (operations : List UserOperation)
      → Kept codes operations d
      → decrement env id n d ≡ ok (tt, d')
      → Kept (release (some id) codes) operations d'
  unfolding decrement
  decrement_rows id n d d' codes operations k h = (
    changed_rows (is_used id) give_back n d d' h ∙ ap (release (some id)) k.0,
    same_operations (is_used id) give_back n d d' h ∙ k.1,
  )

  pub log_row :
      (o : UserOperation) (user_id call n : ℕ) (d d' : Db F) (codes : List (PromoCode F))
      (operations : List UserOperation)
      → o.user_id ≡ user_id
      → o.operation_type ≡ operation_create_order
      → o.created_at ≡ env.now call
      → Kept codes operations d
      → insert_operation env o n d ≡ ok (tt, d')
      → (d'.promo_codes ≡ codes) × Logged env user_id operations d'.user_operations
  log_row o user_id call n d d' codes operations is_user is_type is_now k h =
      let (same, rows) = insert_operation-Logged env o n d d' h in
      (
        same ∙ k.0,
        record {
          row = record o { created_at = env.timestamp o.created_at };
          rows =
              rows ∙ ap (λ x. x ++ record o { created_at = env.timestamp o.created_at } ∷ []) (k.1);
          row_user = is_user;
          row_type = is_type;
          call = call;
          row_time = ap env.timestamp is_now;
        },
      )
