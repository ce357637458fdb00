-- ===== src/Users/Register.antt =====
-- What registration stores, and that it is enough to log in.
use soa_hw.Prelude.{
  ℕ, ◌+◌, ◌≡◌, refl, subst, ap, ◌∙◌, true, false, some, List, [], ◌∷◌, ◌++◌, find, any, String,
  str_eq, eq_iff, find-append_none, arith,
}
use soa_hw.Domain.{User, UserRole}
use soa_hw.Store.{Env, Db, World}
use soa_hw.Store.Schema.{fits, varchar, varchar-fits, fresh_email}
use soa_hw.Store.Action.{ok, crypto, exec, on_error, pure, ◌>>=◌, or_raise, raise_if, time_now}
use soa_hw.Store.Outcome.{
  Ends, Triple, Outside, Outside-IsSteady, Triple-bind, Triple-bind_fact, Triple-on_error,
  Triple-or_raise_last, Triple-pure, Triple-weaken, Triple-time_now, Triple-uuid_new,
}
use soa_hw.Store.Statements.{Triple-exec_commit}
use soa_hw.Users.Repository as Repository
use soa_hw.Users.Repository.{has_email, user_as_stored, insert_user, put_user, select_by_email}
use soa_hw.Users.Service.{
  Claims, Crypto, Config, claims_of, generate_token, hash_password, register, login,
}
use soa_hw.Store.Outcome.{after_ok}
use soa_hw.Users.Tokens.{IsSound}

-- A user was added to the table, with an email that no other user has, as the column holds it.
pub record Registered {F : Type 0} (c : Crypto) (env : Env F) (db : Db F) (email password : String)
    (role : UserRole) (u : User) (users : List User) : Type 0 where
  pub same_email : u.email ≡ email
  pub same_role : u.role ≡ role
  pub salt : ℕ
  pub hashed : c.generate_from_password salt password ≡ some u.password_hash
  pub rows : users ≡ db.users ++ user_as_stored env u ∷ []
  pub fresh : any (has_email (varchar 255 email)) db.users ≡ false

module _ {F : Type 0} (c : Crypto) (config : Config) (env : Env F) (db : Db F) where
  insert_user_lem :
      (u : User) (n : ℕ) (d : Db F)
      → insert_user env u n db ≡ ok (tt, d)
      → (d.users ≡ db.users ++ user_as_stored env u ∷ [])
        × (any (has_email (varchar 255 u.email)) db.users ≡ false)
  unfolding insert_user put_user fresh_email
  insert_user_lem u n d e = (ground arith, ground arith)

  register-Triple :
      (email password : String) (role : UserRole)
      → Triple db
          (Outside db)
          (register c config env email password role)
          (λ u w. Registered c env db email password role u w.db.users)
  unfolding register hash_password Repository.create
  register-Triple email password role =
      Triple-bind_fact
        (Triple-on_error _ (
          Triple-uuid_new env (Outside-IsSteady db) λ salt.
            Triple-weaken (Triple-or_raise_last _ crypto (Outside-IsSteady db)) (λ w p. p)
              (λ h w p. (
                p.0,
                let s : (n : ℕ) × (c.generate_from_password n password ≡ some h) = (salt, p.1) in s,
              ))))
        λ hashed h. Triple-uuid_new env (Outside-IsSteady db) λ id.
          Triple-time_now env (Outside-IsSteady db) λ created_at.
            Triple-time_now env (Outside-IsSteady db) λ updated_at.
              Triple-bind
                (Triple-on_error _ (
                  Triple-on_error _ (
                    Triple-exec_commit env (insert_user env _) _
                      (λ n u d e. insert_user_lem _ n d e))))
                λ _.
                  Triple-weaken (Triple-pure _)
                    (λ w p. record {
                      same_email = refl;
                      same_role = refl;
                      salt = h.0;
                      hashed = h.1;
                      rows = p.0;
                      fresh = p.1;
                    })
                    (λ a w p. p)

-- A successful registration adds one user, with this email, which no user had before, with this role,
-- and with a hash of this password, the texts as their columns hold them; other users stay as they are. If it fails, the committed tables are
-- as before.
pub register_lem :
    {F : Type 0} (c : Crypto) (config : Config) (env : Env F) (email password : String)
    (role : UserRole) (w : World F)
    → Ends w.db
        (λ u w'. Registered c env w.db email password role u w'.db.users)
        (register c config env email password role w)
register_lem c config env email password role w =
    (register-Triple c config env w.db email password role).run w (record { same = refl })

-- A login in this state succeeds, if no call of the driver fails and jwt can sign.
login_succeeds :
    {F : Type 0} (c : Crypto) (config : Config) (env : Env F) (email password : String)
    (w : World F) (u : User)
    → ((n : ℕ) → env.fails n ≡ false)
    → ((claims : Claims) → (text : String) × (c.signed_string config.jwt_secret claims ≡ some text))
    → find (has_email email) w.db.users ≡ some u
    → c.compare_hash_and_password u.password_hash password ≡ true
    → (tokens : String × String) × ((login c config env email password w).0 ≡ ok tokens)
unfolding login generate_token Repository.get_by_email select_by_email exec on_error pure ◌>>=◌
    or_raise raise_if time_now
login_succeeds c config env email password w u never signs found matches =
    ((access.0, refresh.0), rw (never w.calls, found, matches, access.1, refresh.1))
  where
    access :
        (text : String) × (c.signed_string config.jwt_secret
            (claims_of c config u config.access_expiry (env.now (w.calls + 1)))
          ≡ some text)
    access = signs (claims_of c config u config.access_expiry (env.now (w.calls + 1)))

    refresh :
        (text : String) × (c.signed_string config.jwt_secret
            (claims_of c config u config.refresh_expiry (env.now (w.calls + 1 + 1)))
          ≡ some text)
    refresh = signs (claims_of c config u config.refresh_expiry (env.now (w.calls + 1 + 1)))

-- Who has just registered with an email of at most 255 characters can log in with the same email and
-- password, if no call of the driver fails, jwt can sign, and bcrypt does what its documentation says.
pub register_then_login :
    {F : Type 0} (c : Crypto) (config : Config) (env : Env F) (email password : String)
    (role : UserRole) (w : World F) (u : User) (w' : World F)
    → IsSound c
    → fits 255 email ≡ true
    → ((n : ℕ) → env.fails n ≡ false)
    → ((claims : Claims) → (text : String) × (c.signed_string config.jwt_secret claims ≡ some text))
    → register c config env email password role w ≡ (ok u, w')
    → (tokens : String × String) × ((login c config env email password w').0 ≡ ok tokens)
register_then_login c config env email password role w u w' sound short never signs e =
    login_succeeds c config env email password w' (user_as_stored env u) never signs
      (rw (
        r.rows,
        find-append_none (has_email email) w.db.users (user_as_stored env u) (
            subst (λ x. any (has_email x) w.db.users ≡ false) (varchar-fits 255 email short)
              r.fresh),
        same,
      ))
      (rw (varchar-fits 255 u.password_hash (sound.short r.salt password u.password_hash r.hashed))
        (sound.matches r.salt password u.password_hash r.hashed))
  where
    r : Registered c env w.db email password role u w'.db.users
    r = after_ok w.db _ _ u w' e (register_lem c config env email password role w)

    same : str_eq (varchar 255 u.email) email ≡ true
    same =
        (eq_iff (varchar 255 u.email) email).1
          (ap (varchar 255) r.same_email ∙ varchar-fits 255 email short)
