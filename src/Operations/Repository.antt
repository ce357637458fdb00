-- ===== src/Operations/Repository.antt =====
-- internal/operations/repository_impl.go
use soa_hw.Prelude.{
  ℕ, Bool, true, false, ◌&&◌, Option, none, some, List, [], ◌∷◌, ◌++◌, ◌==◌, ltb, select,
  if◌then◌else◌,
}
use soa_hw.Prelude.Int.{ℤ, pos, ◌-ℤ◌, ◌*ℤ◌, ltb_ℤ, wrap_int64, clamp_int64}
use soa_hw.Domain.{OperationType, operation_eq, UserOperation}
use soa_hw.Store.{Env, Db}
use soa_hw.Store.Schema.{user_operation_row, fresh_id}
use soa_hw.Store.Action.{
  Result, ok, err, violation, wrap, failed_to_create_user_operation, failed_to_get_last_operation,
  Action, Sql, Handle, nil_tx, exec, on_error, pure, time_now, ◌>>=◌,
}

-- `WHERE user_id = $1 AND operation_type = $2`
abbrev pub is_by : ℕ → OperationType → UserOperation → Bool
is_by user_id kind o = o.user_id == user_id && operation_eq o.operation_type kind

-- `ORDER BY created_at DESC LIMIT 1`
unfoldable pub latest : List UserOperation → Option UserOperation
latest [] = none
latest (o ∷ os) = elim (latest os) [
  | none ↦ some o
  | some p ↦ if ltb o.created_at p.created_at then some p else some o
]

-- `time.Minute`, in nanoseconds
abbrev pub minute : ℕ
minute = 60_000_000_000

-- `time.Since(t)` at the time `now`
unfoldable pub since : ℕ → ℕ → ℤ
since t now = clamp_int64 (pos now -ℤ pos t)

-- `time.Duration(windowMinutes) * time.Minute`
unfoldable pub window : ℤ → ℤ
window minutes = wrap_int64 (minutes *ℤ pos minute)

-- The end of `CheckRateLimit`, once the last operation and the time are known.
unfoldable pub limit_at : ℤ → ℕ → ℕ → Bool × ℤ
unfolding since window
limit_at minutes created_at now =
    if ltb_ℤ (since created_at now) (window minutes)
    then (false, wrap_int64 (window minutes -ℤ since created_at now))
    else (true, pos 0)

module _ {F : Type 0} where
  unfoldable pub select_last_operation : ℕ → OperationType → Sql F (Option UserOperation)
  unfolding latest
  select_last_operation user_id kind n db =
      ok (latest (select (is_by user_id kind) db.user_operations), db)

  module _ (env : Env F) where
    put_operation : UserOperation → Db F → Result (Unit {0} × Db F)
    put_operation row db =
        if user_operation_row db row
          && fresh_id (λ (o : UserOperation). o.id) row db.user_operations
        then ok (tt, record db { user_operations = db.user_operations ++ row ∷ [] })
        else err violation

    unfoldable pub insert_operation : UserOperation → Sql F (Unit {0})
    unfolding put_operation
    insert_operation o n db =
        put_operation (record o { created_at = env.timestamp o.created_at }) db

    unfoldable pub create : Handle → UserOperation → Action F (Unit {0})
    create tx o = on_error (wrap failed_to_create_user_operation) (exec env tx (insert_operation o))

    unfoldable pub get_last_operation : ℕ → OperationType → Action F (Option UserOperation)
    get_last_operation user_id kind =
        on_error (wrap failed_to_get_last_operation)
          (exec env nil_tx (select_last_operation user_id kind))

    unfoldable pub since_last : ℤ → Option UserOperation → Action F (Bool × ℤ)
    since_last minutes none = pure (true, pos 0)
    since_last minutes (some last) = do
      now ← time_now env
      pure (limit_at minutes last.created_at now)

    unfoldable pub check_rate_limit : ℕ → OperationType → ℤ → Action F (Bool × ℤ)
    unfolding since_last
    check_rate_limit user_id kind minutes = do
      last ← get_last_operation user_id kind
      since_last minutes last
