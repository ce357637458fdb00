-- ===== src/Users/Login.antt =====
-- What registration and login check and store, and what their tokens are good for.
use soa_hw.Prelude.{ℕ, ◌≤◌, ◌≡◌, refl, ◌∙◌, true, some, find, String, arith}
use soa_hw.Prelude.Int.{ℤ}
use soa_hw.Domain.{User}
use soa_hw.Store.{Env, Db, World}
use soa_hw.Store.Action.{time_now, crypto}
use soa_hw.Store.Outcome.{
  Ends, Triple, IsSteady, Returns, Triple-bind_fact, Triple-on_error, Triple-or_raise_last,
  Triple-raise_if, Triple-return, Triple-weaken,
}
use soa_hw.Store.Statements.{Triple-exec_select}
use soa_hw.Prelude.{not-true}
use soa_hw.Users.Repository as Repository
use soa_hw.Users.Repository.{has_email, user_as_stored, select_by_email}
use soa_hw.Users.Service.{Crypto, Config, claims_of, generate_token, login}

-- The clock was read as `t`, at or after the call with this number.
pub record IsRead {F : Type 0} (env : Env F) (start t : ℕ) : Type 0 where
  pub call : ℕ
  pub late : start ≤ call
  pub time : t ≡ env.now call

-- The committed tables are `db`, and the calls have reached this number.
pub record Since {F : Type 0} (db : Db F) (start : ℕ) (w : World F) : Type 0 where
  pub same : w.db ≡ db
  pub late : start ≤ w.calls

module _ {F : Type 0} (env : Env F) (db : Db F) (start : ℕ) where
  pub Since-IsSteady : IsSteady db (Since {F = F} db start)
  Since-IsSteady = record {
    same = λ w p. p.same;
    counted = λ w p. record { same = p.same; late = omega (arith, p.late) };
  }

  pub Triple-clock :
      Triple db (Since db start) (time_now env) (Returns (Since db start) (IsRead env start))
  unfolding time_now
  Triple-clock = record {
    run =
        λ w p. (Since-IsSteady.counted w p, record { call = w.calls; late = p.late; time = refl });
  }

-- The text is a token for the user, signed at a time during the call.
pub record Signed {F : Type 0} (c : Crypto) (config : Config) (env : Env F) (start : ℕ)
    (user : User) (expiry : ℤ) (text : String) : Type 0 where
  pub at : ℕ
  pub read : IsRead env start at
  pub signed : c.signed_string config.jwt_secret (claims_of c config user expiry at) ≡ some text

-- A login: the user with this email in the committed table has this password, and the two texts are
-- tokens for the user.
pub record LoggedIn {F : Type 0} (c : Crypto) (config : Config) (env : Env F) (db : Db F)
    (start : ℕ) (email password : String) (tokens : String × String) : Type 0 where
  pub user : User
  pub found : find (has_email email) db.users ≡ some user
  pub password_matches : c.compare_hash_and_password user.password_hash password ≡ true
  pub access : Signed c config env start user config.access_expiry tokens.0
  pub refresh : Signed c config env start user config.refresh_expiry tokens.1

module _ {F : Type 0} (c : Crypto) (config : Config) (env : Env F) (db : Db F) (start : ℕ) where
  pub generate_token-Triple :
      (user : User) (expiry : ℤ)
      → Triple db
          (Since db start)
          (generate_token c config env user expiry)
          (Returns (Since db start) (Signed c config env start user expiry))
  unfolding generate_token
  generate_token-Triple user expiry = Triple-bind_fact (Triple-clock env db start) λ now read.
      Triple-weaken (Triple-or_raise_last _ crypto (Since-IsSteady env db start)) (λ w p. p)
        (λ text w p. (p.0, record { at = now; read = read; signed = p.1 }))

  get_by_email-Triple :
      (email : String)
      → Triple db
          (Since db start)
          (Repository.get_by_email env email)
          (Returns (Since db start) (λ u. find (has_email email) db.users ≡ some u))
  unfolding Repository.get_by_email select_by_email
  get_by_email-Triple email =
      Triple-bind_fact
        (Triple-on_error _ (
          Triple-exec_select env (select_by_email email) _ (Since-IsSteady env db start)
            (λ n. refl)))
        λ found e.
          Triple-weaken (Triple-or_raise_last found _ (Since-IsSteady env db start)) (λ w p. p)
            (λ a w r. (r.0, e ∙ r.1))

  login-Triple :
      (email password : String)
      → Triple db
          (Since db start)
          (login c config env email password)
          (Returns (Since db start) (LoggedIn c config env db start email password))
  unfolding login
  login-Triple email password =
      Triple-bind_fact (Triple-on_error _ (get_by_email-Triple email)) λ user found.
        Triple-raise_if _ _ (Since-IsSteady env db start) λ matches.
          Triple-bind_fact (Triple-on_error _ (generate_token-Triple user config.access_expiry))
            λ access a.
              Triple-bind_fact
                (Triple-on_error _ (generate_token-Triple user config.refresh_expiry))
                λ refresh r. Triple-return _ (record {
                  user = user;
                  found = found;
                  password_matches = not-true _ matches;
                  access = a;
                  refresh = r;
                })

-- A successful login changes no table. The user with this email in the committed table has this
-- password, by bcrypt, and both results are tokens for that user, signed at a time that was read
-- during the call, with the expiry of an access token and of a refresh token. If the login fails, it
-- changes no table either.
pub login_lem :
    {F : Type 0} (c : Crypto) (config : Config) (env : Env F) (email password : String)
    (w : World F)
    → Ends w.db
        (λ tokens w'. (w'.db ≡ w.db) × LoggedIn c config env w.db w.calls email password tokens)
        (login c config env email password w)
login_lem c config env email password w =
    (Triple-weaken (login-Triple c config env w.db w.calls email password) (λ w p. p)
        (λ t w' p. (p.0.same, p.1))).run
      w (record { same = refl; late = omega arith })
