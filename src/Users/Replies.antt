-- ===== src/Users/Replies.antt =====
-- What the handlers of internal/users/handler.go answer.
use soa_hw.Prelude.{ℕ, ◌≡◌, refl, sym, subst, ◌⊎◌, inl, inr, String, Option, none, some}
use soa_hw.Domain.{User}
use soa_hw.Store.{Env, Db, World}
use soa_hw.Store.Action.{Result, ok, err, pure, ◌>>=◌}
use soa_hw.Store.Outcome.{Ends}
use soa_hw.Http.Errors.{new_token_invalid}
use soa_hw.Http.Reply.{Api, Reply, refused, created, answered, attempt, service_error, unless_err}
use soa_hw.Users.Service as Service
use soa_hw.Users.Service.{Crypto, Config}
use soa_hw.Users.Login.{LoggedIn, login_lem}
use soa_hw.Users.Register.{Registered, register_lem}
use soa_hw.Users.Handler.{
  RegisterRequest, LoginRequest, AuthResponse, user_role, auth_response, login_error, register,
  login,
}

module _ {F : Type 0} (c : Crypto) (config : Config) (env : Env F) (db : Db F) (start : ℕ) where
  -- A reply to Login: 400 without a body, the same error 401 whatever else is wrong, or 200 with the
  -- tokens of a login. The tables are as before.
  abbrev pub LoginReply : Option LoginRequest → Reply AuthResponse → World F → Type 0
  LoginReply none (refused e) w = (e.http_status ≡ 400) × (w.db ≡ db)
  LoginReply none _ w = ⊥
  LoginReply (some req) (refused e) w = (e ≡ new_token_invalid) × (w.db ≡ db)
  LoginReply (some req) (answered a) w =
      LoggedIn c config env db start req.email req.password (a.access_token, a.refresh_token)
      × (w.db ≡ db)
  LoginReply (some req) _ w = ⊥

  -- A reply to Register: 400, and the tables are as before; 500, and the user is stored nevertheless;
  -- or 201 with tokens, and the user is stored.
  abbrev pub RegisterReply : Option RegisterRequest → Reply AuthResponse → World F → Type 0
  RegisterReply none (refused e) w = (e.http_status ≡ 400) × (w.db ≡ db)
  RegisterReply none _ w = ⊥
  RegisterReply (some req) (refused e) w =
      ((e.http_status ≡ 400) × (w.db ≡ db))
      ⊎ ((e.http_status ≡ 500)
          × (u : User) × Registered c env db req.email req.password (user_role req.role) u
              w.db.users)
  RegisterReply (some req) (created a) w =
      (u : User) × (later : ℕ) × Registered c env db req.email req.password (user_role req.role) u
        w.db.users
      × LoggedIn c config env w.db later req.email req.password (a.access_token, a.refresh_token)
  RegisterReply (some req) _ w = ⊥

  login_reply :
      (req : LoginRequest) (r : Result (String × String) × World F)
      → Ends db (λ t w'. (w'.db ≡ db) × LoggedIn c config env db start req.email req.password t) r
      → Ends db (LoginReply (some req)) (
          unless_err
            (λ _. new_token_invalid)
            r.0
            (λ t. pure (answered (auth_response t.0 t.1)))
            r.1)
  unfolding pure
  login_reply req (ok t, w') h = (h.1, h.0)
  login_reply req (err e, w') h = (refl, h)

  RegisterReply-after :
      (api : Api) (req : RegisterRequest) (u : User) (later : ℕ) (before : Db F)
      (r : Result (String × String) × World F)
      → Registered c env db req.email req.password (user_role req.role) u before.users
      → Ends before
          (λ t w'. (w'.db ≡ before) × LoggedIn c config env before later req.email req.password t)
          r
      → Ends db
          (RegisterReply (some req))
          (unless_err (login_error api) r.0 (λ t. pure (created (auth_response t.0 t.1))) r.1)
  unfolding pure
  RegisterReply-after api req u later before (ok t, w') stored h = (
    u,
    later,
    subst (λ d. Registered c env db req.email req.password (user_role req.role) u d.users) (sym h.0)
        stored,
    subst (λ d. LoggedIn c config env d later req.email req.password t) (sym h.0) h.1,
  )
  RegisterReply-after api req u later before (err e, w') stored h = inr (
    refl,
    u,
    subst (λ d. Registered c env db req.email req.password (user_role req.role) u d.users) (sym h)
        stored,
  )

  register_reply :
      (api : Api) (req : RegisterRequest) (r : Result User × World F)
      → Ends db
          (λ u w'. Registered c env db req.email req.password (user_role req.role) u w'.db.users)
          r
      → Ends db (RegisterReply (some req)) (
          unless_err
            (service_error api 400)
            r.0
            (λ _. attempt (Service.login c config env req.email req.password) >>= λ tokens.
              unless_err (login_error api) tokens λ t. pure (created (auth_response t.0 t.1)))
            r.1)
  unfolding pure attempt ◌>>=◌
  register_reply api req (ok u, w') h =
      RegisterReply-after api req u w'.calls w'.db
        (Service.login c config env req.email req.password w') h
        (login_lem c config env req.email req.password w')
  register_reply api req (err e, w') h = inl (refl, h)

-- Login without a body is refused with 400. Any other refusal of Login is one and the same error 401,
-- whether the email is unknown, the password is wrong or a call fails. A reply 200 has the tokens of a
-- login. The tables are as before in each case.
pub login_replies :
    {F : Type 0} (c : Crypto) (config : Config) (env : Env F) (api : Api)
    (body : Option LoginRequest) (w : World F)
    → Ends w.db (LoginReply c config env w.db w.calls body) (login c config env api body w)
unfolding login pure attempt ◌>>=◌
login_replies c config env api none w = (refl, refl)
login_replies c config env api (some req) w =
    login_reply c config env w.db w.calls req (Service.login c config env req.email req.password w)
      (login_lem c config env req.email req.password w)

-- Register answers 400 and leaves the tables as before, or it stores the user: then it answers 201 with
-- tokens of a login as this user, or, if that login fails, 500, although the user stays stored.
pub register_replies :
    {F : Type 0} (c : Crypto) (config : Config) (env : Env F) (api : Api)
    (body : Option RegisterRequest) (w : World F)
    → Ends w.db (RegisterReply c config env w.db w.calls body) (register c config env api body w)
unfolding register pure attempt ◌>>=◌
register_replies c config env api none w = (refl, refl)
register_replies c config env api (some req) w =
    register_reply c config env w.db w.calls api req
      (Service.register c config env req.email req.password (user_role req.role) w)
      (register_lem c config env req.email req.password (user_role req.role) w)
