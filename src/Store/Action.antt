-- ===== src/Store/Action.antt =====
-- Calls that may fail, on the state of a request: errors, the monad, and how a statement reaches
-- the database, on the pool (`r.db`) or in the transaction (`tx`).
use soa_hw.Prelude.{ℕ, ◌+◌, Bool, Option, none, some, if◌then◌else◌, String}
use soa_hw.Prelude.Int.{ℤ}
use soa_hw.Store.{Env, Db, Tx, World}

-- The texts that `fmt.Errorf` puts before `%w`.
pub data Context : Type 0 where
  failed_to_check_rate_limit failed_to_check_active_orders failed_to_begin_transaction : Context
  product_not_found order_not_found promo_code_not_found failed_to_reserve_stock : Context
  failed_to_restore_stock failed_to_increment_promo_uses failed_to_decrement_promo_uses : Context
  failed_to_create_order failed_to_create_order_item failed_to_record_operation : Context
  failed_to_commit_transaction failed_to_get_existing_items failed_to_get_order_items : Context
  failed_to_update_order failed_to_delete_old_items failed_to_get_order : Context
  failed_to_get_active_order failed_to_delete_order_items failed_to_update_stock : Context
  failed_to_create_product failed_to_get_product failed_to_update_product : Context
  failed_to_archive_product failed_to_count_products failed_to_list_products : Context
  failed_to_create_promo_code failed_to_get_promo_code failed_to_update_promo_code : Context
  failed_to_delete_promo_code failed_to_increment_promo_code_uses : Context
  failed_to_decrement_promo_code_uses failed_to_create_user_operation : Context
  failed_to_get_last_operation failed_to_create_user failed_to_get_user : Context
  failed_to_hash_password failed_to_generate_access_token failed_to_generate_refresh_token : Context
  invalid_token : Context

pub data Error : Type 0 where
  -- errors of the driver: the call failed, a constraint refused a row, a finished transaction
  driver violation tx_done : Error
  -- an error of bcrypt or jwt
  crypto : Error
  wrap : Context → Error → Error
  -- `%v` of the remaining time, `%s` of a product or a status
  rate_limit_exceeded : ℤ → Error
  product_is_not_active insufficient_stock_for_product : ℕ → Error
  order_cannot_be_canceled : String → Error
  user_already_has_an_active_order promo_code_is_invalid order_amount_below_minimum : Error
  unauthorized insufficient_stock : Error
  product_missing order_missing promo_code_missing user_missing : Error
  promo_code_is_invalid_or_expired : Error
  invalid_credentials invalid_user_id_in_token token_expired invalid_token_claims : Error

pub data Result (A : Type 0) : Type 0 where
  ok : A → Result A
  err : Error → Result A

abbrev pub Action : Type 0 → Type 0 → Type 0
Action F A = World F → Result A × World F

-- What follows a call, by how the call ended.
abbrev pub proceed : {F A B : Type 0} → Result A × World F → (A → Action F B) → Result B × World F
proceed (ok a, w) f = f a w
proceed (err e, w) f = (err e, w)

-- `if err != nil { return fmt.Errorf("...: %w", err) }`
abbrev pub reword : {A : Type 0} → (Error → Error) → Result A → Result A
reword f (ok a) = ok a
reword f (err e) = err (f e)

module _ {F : Type 0} where
  unfoldable pub pure : {A : Type 0} → A → Action F A
  pure a w = (ok a, w)

  unfoldable pub raise : {A : Type 0} → Error → Action F A
  raise e w = (err e, w)

  infixl 5 ◌>>=◌ ◌>>◌
  unfoldable pub ◌>>=◌ : {A B : Type 0} → Action F A → (A → Action F B) → Action F B
  ◌>>=◌ m f w = proceed (m w) f

  abbrev pub ◌>>◌ : {A B : Type 0} → Action F A → Action F B → Action F B
  m >> k = m >>= λ _. k

  -- `if cond { return nil, err }`
  unfoldable pub raise_if : Bool → Error → Action F (Unit {0})
  raise_if cond e w = (if cond then err e else ok tt, w)

  -- The call `m`, whose error is returned as `f` makes it.
  unfoldable pub on_error : {A : Type 0} → (Error → Error) → Action F A → Action F A
  on_error f m w = let (r, w') = m w in (reword f r, w')

  -- `if err == sql.ErrNoRows { return nil, e }`
  unfoldable pub or_raise : {A : Type 0} → Option A → Error → Action F A
  unfolding pure raise
  or_raise none e = raise e
  or_raise (some a) e = pure a

  abbrev pub count_call : World F → World F
  count_call w = record w { calls = w.calls + 1 }

  module _ (env : Env F) where
    -- time.Now() and uuid.New()
    unfoldable pub time_now : Action F ℕ
    time_now w = (ok (env.now w.calls), count_call w)

    unfoldable pub uuid_new : Action F ℕ
    uuid_new w = (ok (env.new_uuid w.calls), count_call w)

-- A statement: at its CURRENT_TIMESTAMP, on the tables that it sees, its result and the tables
-- after it.
abbrev pub Sql : Type 0 → Type 0 → Type 0
Sql F A = ℕ → Db F → Result (A × Db F)

-- The argument `tx *sqlx.Tx` of a repository method.
pub data Handle : Type 0 where
  nil_tx the_tx : Handle

module _ {F : Type 0} where
  abbrev pub after_db : {A : Type 0} → World F → Result (A × Db F) → Result A × World F
  after_db w (ok (a, db)) = (ok a, record w { db = db })
  after_db w (err e) = (err e, w)

  abbrev pub after_tx : {A : Type 0} → World F → Tx F → Result (A × Db F) → Result A × World F
  after_tx w t (ok (a, db)) = (ok a, record w { tx = some (record t { work = db }) })
  after_tx w t (err e) = (err e, w)

  abbrev pub in_tx : {A : Type 0} → Sql F A → World F → Option (Tx F) → Result A × World F
  in_tx s w none = (err tx_done, w)
  in_tx s w (some t) = after_tx w t (s t.started t.work)

  module _ (env : Env F) where
    -- A statement outside a transaction commits by itself.
    unfoldable pub exec : {A : Type 0} → Handle → Sql F A → Action F A
    exec nil_tx s w =
        if env.fails w.calls
        then (err driver, count_call w)
        else after_db (count_call w) (s (env.db_now w.calls) w.db)
    exec the_tx s w =
        if env.fails w.calls then (err driver, count_call w) else in_tx s (count_call w) w.tx

    -- db.Beginx(), tx.Commit(): a commit that reports an error has committed nothing.
    unfoldable pub begin_tx : Action F (Unit {0})
    begin_tx w = if env.fails w.calls then (err driver, count_call w) else (
      ok tt,
      record w {
        tx = some (record { work = w.db; started = env.db_now w.calls });
        calls = w.calls + 1;
      },
    )

    abbrev pub commit_work : World F → Option (Tx F) → Result (Unit {0}) × World F
    commit_work w none = (err tx_done, w)
    commit_work w (some t) = (ok tt, record w { db = t.work; tx = none })

    unfoldable pub commit : Action F (Unit {0})
    commit w =
        if env.fails w.calls
        then (err driver, record w { tx = none; calls = w.calls + 1 })
        else commit_work (count_call w) w.tx

  -- `defer tx.Rollback()` around the rest of the function.
  unfoldable pub defer_rollback : {A : Type 0} → Action F A → Action F A
  defer_rollback m w = let (r, w') = m w in (r, record w' { tx = none })
