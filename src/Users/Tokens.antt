-- ===== src/Users/Tokens.antt =====
-- What tokens are good for, from what bcrypt and jwt promise.
use soa_hw.Prelude.{ℕ, ◌+◌, ◌≤◌, ◌≡◌, true, some, String, arith}
use soa_hw.Prelude.Int.{ℤ, pos, ◌+ℤ◌, ◌≤ℤ◌}
use soa_hw.Domain.{User}
use soa_hw.Store.{Env, World}
use soa_hw.Store.Schema.{fits}
use soa_hw.Store.Action.{ok}
use soa_hw.Store.Outcome.{Ends, Ends-weaken}
use soa_hw.Users.Service.{
  Claims, token, Crypto, Config, key_of, claims_of, role_text, validate_token_at, login,
}
use soa_hw.Users.Login.{Signed, LoggedIn, login_lem}

-- The same claims but for the times, which a token holds in seconds.
pub record SameHolder (a b : Claims) : Type 0 where
  pub user_id : a.user_id ≡ b.user_id
  pub email : a.email ≡ b.email
  pub role : a.role ≡ b.role

-- A second, in nanoseconds.
abbrev pub second : ℕ
second = 1_000_000_000

-- What the documentation of bcrypt, jwt and uuid says: a hash has 60 characters, so that its column
-- holds it; a password matches its own hash; a token that
-- was signed with HS256 and a key is accepted with that key from its "not before" time until the last
-- second before it expires; a UUID is read back from its text.
pub record IsSound (c : Crypto) : Type 0 where
  pub matches :
      (salt : ℕ) (password hashed : String)
      → c.generate_from_password salt password ≡ some hashed
      → c.compare_hash_and_password hashed password ≡ true
  pub short :
      (salt : ℕ) (password hashed : String)
      → c.generate_from_password salt password ≡ some hashed
      → fits 255 hashed ≡ true
  pub accepts :
      (secret text : String) (claims : Claims) (now : ℕ)
      → c.signed_string secret claims ≡ some text
      → claims.not_before ≤ℤ pos now
      → pos (now + second) ≤ℤ claims.expires_at
      → (claims' : Claims) × (c.parse_with_claims (key_of secret) now text ≡ token claims' true)
        × SameHolder claims' claims
  pub reads_back : (id : ℕ) → c.parse_uuid (c.uuid_text id) ≡ some id

-- The token is accepted at this time, for this user.
abbrev pub IsAccepted : Crypto → Config → ℕ → String → User → Type 0
IsAccepted c config now text user =
    (claims : Claims) × (validate_token_at c config now text ≡ ok claims)
    × (claims.user_id ≡ c.uuid_text user.id)
    × (claims.email ≡ user.email)
    × (claims.role ≡ role_text user.role)

module _ {F : Type 0} {c : Crypto} {config : Config} {env : Env F} {start : ℕ} {user : User}
    {expiry : ℤ} {text : String} where
  pub Signed-IsAccepted :
      IsSound c
      → (s : Signed c config env start user expiry text) → (now : ℕ) → s.at ≤ now
      → pos (now + second) ≤ℤ pos s.at +ℤ expiry
      → IsAccepted c config now text user
  unfolding validate_token_at
  Signed-IsAccepted sound s now begun left =
      let (claims, e, same) =
        sound.accepts config.jwt_secret text (claims_of c config user expiry s.at) now s.signed
          (omega arith) left in
      (claims, rw e, same.user_id, same.email, same.role)

-- Both tokens of a login, the refresh token too, are accepted as access tokens, for the user who
-- logged in and from the time at which each was signed until a second before its own expiry, if bcrypt
-- and jwt do what their documentation says.
pub login_tokens :
    {F : Type 0} (c : Crypto) (config : Config) (env : Env F) (email password : String)
    (w : World F)
    → IsSound c
    → Ends w.db
        (λ tokens _.
          (l : LoggedIn c config env w.db w.calls email password tokens) × ((now : ℕ)
            → l.access.at ≤ now
            → pos (now + second) ≤ℤ pos l.access.at +ℤ config.access_expiry
            → IsAccepted c config now tokens.0 l.user)
          × ((now : ℕ)
              → l.refresh.at ≤ now
              → pos (now + second) ≤ℤ pos l.refresh.at +ℤ config.refresh_expiry
              → IsAccepted c config now tokens.1 l.user))
        (login c config env email password w)
login_tokens c config env email password w sound =
    Ends-weaken w.db _ _ (login c config env email password w)
      (λ tokens w' p.
        (p.1, Signed-IsAccepted sound p.1.access, Signed-IsAccepted sound p.1.refresh))
      (login_lem c config env email password w)
