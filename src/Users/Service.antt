-- ===== src/Users/Service.antt =====
-- internal/users/service_impl.go. bcrypt and jwt are a parameter, `Crypto`.
use soa_hw.Prelude.{ℕ, String, Bool, not, Option, none, some, if◌then◌else◌}
use soa_hw.Prelude.Int.{ℤ, pos, ◌+ℤ◌}
use soa_hw.Domain.{User, UserRole, role_user, role_seller, role_admin}
use soa_hw.Domain
use soa_hw.Store.{Env}
use soa_hw.Store.Action.{
  crypto, wrap, invalid_token, failed_to_hash_password, failed_to_create_user,
  failed_to_generate_access_token, failed_to_generate_refresh_token, invalid_credentials,
  invalid_user_id_in_token, user_missing, token_expired, invalid_token_claims, Result, ok, err,
  Action, pure, raise, raise_if, on_error, or_raise, time_now, uuid_new, ◌>>=◌, ◌>>◌,
}
use soa_hw.Users.Repository as Repository

-- The registered claims are the three times, in nanoseconds.
pub record Claims : Type 0 where
  pub user_id : String
  pub email : String
  pub role : String
  pub expires_at : ℤ
  pub issued_at : ℤ
  pub not_before : ℤ

-- What jwt.ParseWithClaims returns: a token with its claims and its field `Valid`, or an error, which
-- may be the value jwt.ErrTokenExpired itself.
pub data Parsed : Type 0 where
  token : Claims → Bool → Parsed
  expired failed : Parsed

pub record Crypto : Type 0 where
  -- bcrypt.GenerateFromPassword, with the salt of the call with this number
  pub generate_from_password : ℕ → String → Option String
  -- bcrypt.CompareHashAndPassword returns nil
  pub compare_hash_and_password : String → String → Bool
  -- SignedString of a token with method HS256
  pub signed_string : String → Claims → Option String
  -- ParseWithClaims at a time, where the key function depends on whether the method is HMAC
  pub parse_with_claims : (Bool → Option String) → ℕ → String → Parsed
  -- uuid.Parse, and String of a UUID
  pub parse_uuid : String → Option ℕ
  pub uuid_text : ℕ → String

-- The fields of the service.
pub record Config : Type 0 where
  pub jwt_secret : String
  pub access_expiry : ℤ
  pub refresh_expiry : ℤ

-- `string(user.Role)`
abbrev pub role_text : UserRole → String
role_text role_user = "USER"
role_text role_seller = "SELLER"
role_text role_admin = "ADMIN"
role_text (Domain.UserRole.other s) = s

-- The key function of `validateToken`.
abbrev pub key_of : String → Bool → Option String
key_of secret is_hmac = if is_hmac then some secret else none

module _ (c : Crypto) (config : Config) where
  -- The claims that `generateToken` signs.
  abbrev pub claims_of : User → ℤ → ℕ → Claims
  claims_of user expiry now = record {
    user_id = c.uuid_text user.id;
    email = user.email;
    role = role_text user.role;
    expires_at = pos now +ℤ expiry;
    issued_at = pos now;
    not_before = pos now;
  }

  -- The end of `validateToken`.
  abbrev pub claims_in : Parsed → Result Claims
  claims_in (token claims valid) = if valid then ok claims else err invalid_token_claims
  claims_in expired = err token_expired
  claims_in failed = err (wrap invalid_token crypto)

  -- `validateToken` at the time that jwt reads.
  unfoldable pub validate_token_at : ℕ → String → Result Claims
  validate_token_at now text = claims_in (c.parse_with_claims (key_of config.jwt_secret) now text)

  module _ {F : Type 0} where
    abbrev pub return_result : {A : Type 0} → Result A → Action F A
    return_result (ok a) = pure a
    return_result (err e) = raise e

    module _ (env : Env F) where
      unfoldable pub generate_token : User → ℤ → Action F String
      generate_token user expiry = do
        now ← time_now env
        or_raise (c.signed_string config.jwt_secret (claims_of user expiry now)) crypto

      unfoldable pub validate_token : String → Action F Claims
      validate_token text = do now ← time_now env; return_result (validate_token_at now text)

      unfoldable pub validate_access_token : String → Action F Claims
      validate_access_token text = validate_token text

      -- The number of the salt counts as a call of the outside world, as an identifier does.
      unfoldable pub hash_password : String → Action F String
      hash_password password = do
        salt ← uuid_new env
        or_raise (c.generate_from_password salt password) crypto

      unfoldable pub register : String → String → UserRole → Action F User
      register email password role = do
        hashed ← on_error (wrap failed_to_hash_password) (hash_password password)
        id ← uuid_new env
        created_at ← time_now env
        updated_at ← time_now env
        let user : User = record {
          id = id;
          email = email;
          password_hash = hashed;
          role = role;
          created_at = created_at;
          updated_at = updated_at;
        }
        on_error (wrap failed_to_create_user) (Repository.create env user)
        pure user

      -- `Login` from the comparison of the passwords on.
      unfoldable pub issue_tokens : User → Action F (String × String)
      issue_tokens user = do
        access ←
            on_error (wrap failed_to_generate_access_token)
              (generate_token user config.access_expiry)
        refresh ←
            on_error (wrap failed_to_generate_refresh_token)
              (generate_token user config.refresh_expiry)
        pure (access, refresh)

      unfoldable pub login : String → String → Action F (String × String)
      unfolding issue_tokens
      login email password = do
        user ← on_error (λ _. invalid_credentials) (Repository.get_by_email env email)
        raise_if (not (c.compare_hash_and_password user.password_hash password)) invalid_credentials
        issue_tokens user

      unfoldable pub refresh_token : String → Action F String
      refresh_token text = do
        claims ← validate_token text
        user_id ← or_raise (c.parse_uuid claims.user_id) invalid_user_id_in_token
        user ← on_error (λ _. user_missing) (Repository.get_by_id env user_id)
        on_error (wrap failed_to_generate_access_token) (generate_token user config.access_expiry)
