-- ===== src/Users/Repository.antt =====
-- internal/users/repository_impl.go: each query as a statement on the tables, and the methods that
-- run them.
use soa_hw.Prelude.{ℕ, Bool, ◌&&◌, Option, [], ◌∷◌, ◌++◌, ◌==◌, String, str_eq, find, if◌then◌else◌}
use soa_hw.Domain.{User}
use soa_hw.Store.{Env, Db}
use soa_hw.Store.Schema.{varchar, user_row, fresh_id, fresh_email}
use soa_hw.Store.Action.{
  Result, ok, err, violation, wrap, failed_to_create_user, failed_to_get_user, user_missing, Action,
  Sql, nil_tx, exec, on_error, or_raise, ◌>>=◌,
}

-- `WHERE id = $1`
abbrev pub has_id : ℕ → User → Bool
has_id id u = u.id == id

-- `WHERE email = $1`
abbrev pub has_email : String → User → Bool
has_email email u = str_eq u.email email

module _ {F : Type 0} where
  unfoldable pub select_by_id : ℕ → Sql F (Option User)
  select_by_id id n db = ok (find (has_id id) db.users, db)

  unfoldable pub select_by_email : String → Sql F (Option User)
  select_by_email email n db = ok (find (has_email email) db.users, db)

  unfoldable pub put_user : User → Db F → Result (Unit {0} × Db F)
  put_user row db =
      if user_row row && fresh_id (λ (u : User). u.id) row db.users && fresh_email row db.users
      then ok (tt, record db { users = db.users ++ row ∷ [] })
      else err violation

  module _ (env : Env F) where
    -- The row as the columns hold it.
    abbrev pub user_as_stored : User → User
    user_as_stored u = record u {
      email = varchar 255 u.email;
      password_hash = varchar 255 u.password_hash;
      created_at = env.timestamp u.created_at;
      updated_at = env.timestamp u.updated_at;
    }

    unfoldable pub insert_user : User → Sql F (Unit {0})
    insert_user u n db = put_user (user_as_stored u) db

    unfoldable pub create : User → Action F (Unit {0})
    create u = on_error (wrap failed_to_create_user) (exec env nil_tx (insert_user u))

    unfoldable pub get_by_id : ℕ → Action F User
    get_by_id id = do
      found ← on_error (wrap failed_to_get_user) (exec env nil_tx (select_by_id id))
      or_raise found user_missing

    unfoldable pub get_by_email : String → Action F User
    get_by_email email = do
      found ← on_error (wrap failed_to_get_user) (exec env nil_tx (select_by_email email))
      or_raise found user_missing
