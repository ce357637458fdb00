-- ===== src/Users/Handler.antt =====
-- internal/users/handler.go
use soa_hw.Prelude.{ℕ, String, str_eq, Option, [], if◌then◌else◌}
use soa_hw.Domain.{UserRole, role_user, role_seller, role_admin}
use soa_hw.Domain
use soa_hw.Store.{Env}
use soa_hw.Store.Action.{Error, Action, pure, ◌>>=◌}
use soa_hw.Http.Errors.{
  AppError, new_app_error, token_invalid, new_token_invalid, new_refresh_token_invalid,
  new_validation_error,
}
use soa_hw.Http.Reply.{Api, Reply, created, answered, attempt, unless, unless_err, service_error}
use soa_hw.Users.Service as Service
use soa_hw.Users.Service.{Crypto, Config}

-- The fields of the generated types that the handlers read and write.
pub record RegisterRequest : Type 0 where
  pub email : String
  pub password : String
  pub role : String

pub record LoginRequest : Type 0 where
  pub email : String
  pub password : String

pub record RefreshRequest : Type 0 where
  pub refresh_token : String

pub record AuthResponse : Type 0 where
  pub access_token : String
  pub refresh_token : String
  pub token_type : String
  pub expires_in : ℕ

-- `domain.UserRole(s)`
abbrev pub user_role : String → UserRole
user_role s =
    if str_eq s "USER"
    then role_user
    else if str_eq s "SELLER"
    then role_seller
    else if str_eq s "ADMIN"
    then role_admin
    else Domain.UserRole.other s

abbrev pub auth_response : String → String → AuthResponse
auth_response access refresh = record {
  access_token = access;
  refresh_token = refresh;
  token_type = "Bearer";
  expires_in = 1800;
}

-- The refusal when the login after a registration fails.
abbrev pub login_error : Api → Error → AppError String
login_error api e = new_app_error token_invalid (api.error_text e) 500

module _ {F : Type 0} (c : Crypto) (config : Config) (env : Env F) (api : Api) where
  unfoldable pub register : Option RegisterRequest → Action F (Reply AuthResponse)
  register body = unless (new_validation_error "Invalid request body" []) body λ req. do
    stored ← attempt (Service.register c config env req.email req.password (user_role req.role))
    unless_err (service_error api 400) stored λ _. do
      tokens ← attempt (Service.login c config env req.email req.password)
      unless_err (login_error api) tokens λ t. pure (created (auth_response t.0 t.1))

  unfoldable pub login : Option LoginRequest → Action F (Reply AuthResponse)
  login body = unless (new_validation_error "Invalid request body" []) body λ req. do
    tokens ← attempt (Service.login c config env req.email req.password)
    unless_err (λ _. new_token_invalid) tokens λ t. pure (answered (auth_response t.0 t.1))

  unfoldable pub refresh : Option RefreshRequest → Action F (Reply AuthResponse)
  refresh body = unless (new_validation_error "Invalid request body" []) body λ req. do
    access ← attempt (Service.refresh_token c config env req.refresh_token)
    unless_err (λ _. new_refresh_token_invalid) access
        λ t. pure (answered (auth_response t req.refresh_token))
