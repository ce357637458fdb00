-- ===== src/Promos/Repository.antt =====
-- internal/promos/repository_impl.go: each query as a statement on the tables, and the methods that
-- run them.
use soa_hw.Prelude.{
  ℕ, Bool, true, ◌&&◌, Option, none, some, [], ◌∷◌, ◌++◌, ◌==◌, String, str_eq, find, update_where,
  delete_where, if◌then◌else◌,
}
use soa_hw.Prelude.Int.{pos, ◌+ℤ◌, ◌-ℤ◌, ltb_ℤ}
use soa_hw.Domain.{Order}
use soa_hw.Domain.Promo.{PromoCode}
use soa_hw.Store.{Env, Db}
use soa_hw.Store.Schema.{varchar, promo_row, fresh_code, fresh_id}
use soa_hw.Store.Action.{
  Result, ok, err, violation, wrap, failed_to_create_promo_code, failed_to_get_promo_code,
  failed_to_update_promo_code, failed_to_delete_promo_code, failed_to_increment_promo_code_uses,
  failed_to_decrement_promo_code_uses, promo_code_missing, Action, Sql, Handle, nil_tx, exec,
  on_error, or_raise, ◌>>=◌,
}

module _ {F : Type 0} where
  abbrev pub has_id : ℕ → PromoCode F → Bool
  has_id id p = p.id == id

  -- `WHERE id = $1 AND current_uses > 0`
  abbrev pub is_used : ℕ → PromoCode F → Bool
  is_used id p = has_id id p && ltb_ℤ (pos 0) p.current_uses

  abbrev pub use_once : PromoCode F → PromoCode F
  use_once p = record p { current_uses = p.current_uses +ℤ pos 1 }

  abbrev pub give_back : PromoCode F → PromoCode F
  give_back p = record p { current_uses = p.current_uses -ℤ pos 1 }

  abbrev pub overwrite : PromoCode F → F → F → ℕ → PromoCode F → PromoCode F
  overwrite new value amount until p = record p {
    discount_value = value;
    min_order_amount = amount;
    max_uses = new.max_uses;
    valid_until = until;
    active = new.active;
  }

  unfoldable pub select_by_code : String → Sql F (Option (PromoCode F))
  select_by_code code n db = ok (find (λ p. str_eq p.code code) db.promo_codes, db)

  unfoldable pub select_by_id : ℕ → Sql F (Option (PromoCode F))
  select_by_id id n db = ok (find (has_id id) db.promo_codes, db)

  -- `orders.promo_code_id ... ON DELETE SET NULL`, an update of the order, so that the trigger sets
  -- `updated_at` to the statement's time.
  abbrev pub forget_promo : ℕ → ℕ → Order F → Order F
  forget_promo id n o = elim o.promo_code_id [
    | none ↦ o
    | some k ↦ if k == id then record o { promo_code_id = none; updated_at = n } else o
  ]

  unfoldable pub delete_promo : ℕ → Sql F (Unit {0})
  delete_promo id n db =
      (ok (
        tt,
        record db {
          promo_codes = delete_where (has_id id) db.promo_codes;
          orders = update_where (λ o. true) (forget_promo id n) db.orders;
        },
      ))

  module _ (env : Env F) where
    unfoldable pub put_promo : PromoCode F → Db F → Result (Unit {0} × Db F)
    put_promo row db =
        if promo_row env row
          && fresh_id (λ (p : PromoCode F). p.id) row db.promo_codes
          && fresh_code row db.promo_codes
        then ok (tt, record db { promo_codes = db.promo_codes ++ row ∷ [] })
        else err violation

    -- An amount that its column refuses is an error.
    unfoldable pub with_amounts :
        {A : Type 0} → Option F → Option F → (F → F → Result (A × Db F)) → Result (A × Db F)
    with_amounts (some a) (some b) f = f a b
    with_amounts _ _ f = err violation

    unfoldable pub insert_promo : PromoCode F → Sql F (Unit {0})
    unfolding put_promo with_amounts
    insert_promo p n db =
        with_amounts (env.numeric p.discount_value) (env.numeric p.min_order_amount) λ value amount.
          put_promo
            (record p {
              code = varchar 20 p.code;
              discount_value = value;
              min_order_amount = amount;
              valid_from = env.timestamp p.valid_from;
              valid_until = env.timestamp p.valid_until;
            })
            db

    -- An update of the rows that pass a test, of which there is at most one.
    unfoldable pub change_promo :
        (PromoCode F → Bool) → (PromoCode F → PromoCode F) → Sql F (Unit {0})
    change_promo test f n db = elim (find test db.promo_codes) [
      | none ↦ ok (tt, db)
      | some p ↦
          if promo_row env (f p)
          then ok (tt, record db { promo_codes = update_where test f db.promo_codes })
          else err violation
    ]

    unfoldable pub update_promo : PromoCode F → Sql F (Unit {0})
    unfolding change_promo with_amounts
    update_promo p n db =
        with_amounts (env.numeric p.discount_value) (env.numeric p.min_order_amount) λ value amount.
          change_promo (has_id p.id) (overwrite p value amount (env.timestamp p.valid_until)) n db

    unfoldable pub increment : ℕ → Sql F (Unit {0})
    unfolding change_promo
    increment id = change_promo (has_id id) use_once

    unfoldable pub decrement : ℕ → Sql F (Unit {0})
    unfolding change_promo
    decrement id = change_promo (is_used id) give_back

    unfoldable pub create : PromoCode F → Action F (Unit {0})
    create p = on_error (wrap failed_to_create_promo_code) (exec env nil_tx (insert_promo p))

    unfoldable pub get_by_code : String → Action F (PromoCode F)
    get_by_code code = do
      found ← on_error (wrap failed_to_get_promo_code) (exec env nil_tx (select_by_code code))
      or_raise found promo_code_missing

    unfoldable pub get_by_id : ℕ → Action F (PromoCode F)
    get_by_id id = do
      found ← on_error (wrap failed_to_get_promo_code) (exec env nil_tx (select_by_id id))
      or_raise found promo_code_missing

    unfoldable pub update : PromoCode F → Action F (Unit {0})
    update p = on_error (wrap failed_to_update_promo_code) (exec env nil_tx (update_promo p))

    unfoldable pub delete : ℕ → Action F (Unit {0})
    delete id = on_error (wrap failed_to_delete_promo_code) (exec env nil_tx (delete_promo id))

    unfoldable pub increment_uses : Handle → ℕ → Action F (Unit {0})
    increment_uses tx id =
        on_error (wrap failed_to_increment_promo_code_uses) (exec env tx (increment id))

    unfoldable pub decrement_uses : Handle → ℕ → Action F (Unit {0})
    decrement_uses tx id =
        on_error (wrap failed_to_decrement_promo_code_uses) (exec env tx (decrement id))
