-- ===== src/Users/Access.antt =====
-- The way from a login to a handler behind the authentication middleware.
use Prim.Native.String.{◌++◌}
use soa_hw.Prelude.{ℕ, ◌+◌, ◌≤◌, ◌≡◌, Option, some, String}
use soa_hw.Prelude.Int.{pos, ◌+ℤ◌, ◌≤ℤ◌}
use soa_hw.Store.{Env, Db, World}
use soa_hw.Store.Outcome.{Ends, Ends-weaken}
use soa_hw.Http.Errors.{AppError}
use soa_hw.Http.Auth.{auth_middleware, auth_middleware_accepts}
use soa_hw.Users.Service.{Claims, Crypto, Config, role_text, validate_token_at, login}
use soa_hw.Users.Login.{LoggedIn}
use soa_hw.Users.Tokens.{second, IsSound, login_tokens}

module _ {F : Type 0} (c : Crypto) (config : Config) (env : Env F) {D W : Type 0}
    (write_json : AppError D → W → W) (next : Option Claims → W → W) where
  -- A request with the access token reaches the handler, with claims of the user who logged in, as
  -- long as the token lasts.
  abbrev pub Opens : Db F → ℕ → String → String → String × String → Type 0
  Opens db start email password tokens =
      (l : LoggedIn c config env db start email password tokens) × ((now : ℕ) (response : W)
        → l.access.at ≤ now
        → pos (now + second) ≤ℤ pos l.access.at +ℤ config.access_expiry
        → (claims : Claims) × (claims.user_id ≡ c.uuid_text l.user.id)
          × (claims.role ≡ role_text l.user.role)
          × (auth_middleware write_json (validate_token_at c config now) next
                ("Bearer" ++ " " ++ tokens.0) response
              ≡ next (some claims) response))

-- After a login, a request with "Bearer", a space and the access token passes the authentication
-- middleware from the time at which the token was signed until a second before it expires, and its
-- handler gets the identifier and the role of the user who logged in, if bcrypt and jwt do what their
-- documentation says.
pub login-Opens :
    {F : Type 0} (c : Crypto) (config : Config) (env : Env F) {D W : Type 0}
    (write_json : AppError D → W → W) (next : Option Claims → W → W) (email password : String)
    (w : World F)
    → IsSound c
    → Ends w.db
        (λ tokens _. Opens c config env write_json next w.db w.calls email password tokens)
        (login c config env email password w)
login-Opens c config env write_json next email password w sound =
    Ends-weaken w.db _ _ (login c config env email password w)
      (λ tokens w' p. (
        p.0,
        λ now response begun left.
            let a = p.1 now begun left in
            (
              a.0,
              a.2,
              a.4,
              auth_middleware_accepts write_json (validate_token_at c config now) next tokens.0 a.0
                  response a.1,
            ),
      ))
      (login_tokens c config env email password w sound)
