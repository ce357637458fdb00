-- ===== src/Operations/Contract.antt =====
-- What the methods of the operations repository promise to their callers.
use soa_hw.Prelude.{ℕ, ◌≡◌, refl, Bool, true, Option, none, some, select}
use soa_hw.Prelude.Int.{ℤ, pos}
use soa_hw.Domain.{OperationType, UserOperation}
use soa_hw.Store.{Env, Db, World}
use soa_hw.Store.Action.{ok, the_tx}
use soa_hw.Store.Outcome.{
  Triple, Inside, IsSteady, Returns, Triple-bind_fact, Triple-on_error, Triple-return, Triple-clock,
}
use soa_hw.Store.Statements.{Triple-exec_select, Triple-exec_write}
use soa_hw.Operations.Repository.{
  is_by, latest, limit_at, select_last_operation, insert_operation, create, get_last_operation,
  since_last, check_rate_limit,
}

-- The answer of `CheckRateLimit` at a time that the clock gives, from the last operation.
abbrev pub Limits : {F : Type 0} → Env F → ℤ → Option UserOperation → Bool × ℤ → Type 0
Limits env minutes none answer = answer ≡ (true, pos 0)
Limits env minutes (some last) answer =
    (call : ℕ) × (answer ≡ limit_at minutes last.created_at (env.now call))

module _ {F : Type 0} (env : Env F) {db : Db F} where
  since_last-Triple :
      {P : World F → Type 0} (minutes : ℤ) (last : Option UserOperation)
      → IsSteady db P
      → Triple db P (since_last env minutes last) (Returns P (Limits env minutes last))
  unfolding since_last
  since_last-Triple minutes none steady = Triple-return _ refl
  since_last-Triple minutes (some last) steady =
      Triple-clock env steady (λ now call e. rw e (Triple-return _ (call, refl)))

  -- `CheckRateLimit` answers from the last committed operation of the user and kind.
  pub check_rate_limit-Triple :
      {P : World F → Type 0} (user_id : ℕ) (kind : OperationType) (minutes : ℤ)
      → IsSteady db P
      → Triple db P
          (check_rate_limit env user_id kind minutes)
          (Returns P (Limits env minutes (latest (select (is_by user_id kind) db.user_operations))))
  unfolding check_rate_limit get_last_operation select_last_operation
  check_rate_limit-Triple {P} user_id kind minutes steady =
      Triple-bind_fact
        (Triple-on_error _
          (Triple-exec_select env (select_last_operation user_id kind) _ steady (λ n. refl)))
        λ last e. rw e (since_last-Triple minutes last steady)

  pub create-Triple :
      (o : UserOperation) (P Q : Db F → Type 0)
      → ((n : ℕ) (d d' : Db F) → P d → insert_operation env o n d ≡ ok (tt, d') → Q d')
      → Triple db (Inside db P) (create env the_tx o) (λ _. Inside db Q)
  unfolding create
  create-Triple o P Q h =
      Triple-on_error _
        (Triple-exec_write env (insert_operation env o) P (λ _. Q) (λ n u d d' p e. h n d d' p e))
