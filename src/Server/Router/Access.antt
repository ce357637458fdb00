-- ===== src/Server/Router/Access.antt =====
-- Which requests may change the tables.
use Prim.Native.String.{◌++◌}
use soa_hw.Prelude.{
  ℕ, ◌≡◌, refl, ap, inl, inr, ◌⊎◌, Bool, true, false, Bool-cases, String, Option, none, some, List,
  if◌then◌else◌,
}
use soa_hw.Prelude.Int.{ℤ}
use soa_hw.Domain.{Product}
use soa_hw.Store.{Env, Db, World}
use soa_hw.Store.Action.{
  Error, violation, Result, ok, err, Action, pure, time_now, count_call, ◌>>=◌,
}
use soa_hw.Store.Outcome.{
  Ends, Ends-weaken, Triple, Outside, Outside-IsSteady, Triple-bind, Triple-pure, Triple-weaken,
  Triple-on_error, Triple-numbered,
}
use soa_hw.Store.Statements.{Triple-exec_read}
use soa_hw.Http.Errors.{AppError}
use soa_hw.Http.Auth.{auth_middleware_cases}
use soa_hw.Http.Reply.{Api, Reply, refused, no_content, attempt, unless, unless_err}
use soa_hw.Http.Reply.Rules.{Triple-attempt, Triple-Ends, Triple-unless, Triple-unless_err_last}
use soa_hw.Users.Service as Service
use soa_hw.Users.Service.{Claims, Crypto, Config, validate_token_at}
use soa_hw.Users.Login.{login_lem}
use soa_hw.Users.Refresh.{refresh_token_lem}
use soa_hw.Users.Handler as Users
use soa_hw.Users.Handler.{RegisterRequest, LoginRequest, RefreshRequest}
use soa_hw.Products.Contract as Contract
use soa_hw.Products.Service as Products
use soa_hw.Products.Listing as Listing
use soa_hw.Products.Listing.{Filter}
use soa_hw.Products.Handler.{list_products, get_product}
use soa_hw.Server.Config.{Settings}
use soa_hw.Server.Router
use soa_hw.Server.Router.{
  Endpoint, register, login, refresh, is_protected, Body, auth, replying, write_json, users_config,
  handle, dispatch,
}

module _ {F : Type 0} (db : Db F) where
  -- The action leaves the tables as they are.
  abbrev Reads : {A : Type 0} → Action F A → Type 0
  Reads m = Triple db (Outside db) m (λ _. Outside db)

  -- A handler that makes one call of this kind.
  call-Reads :
      {A B : Type 0} (m : Action F A) (e : Error → AppError String) (g : A → Reply B)
      → Reads m
      → Reads (attempt m >>= λ r. unless_err e r (λ a. pure (g a)))
  call-Reads m e g t =
      Triple-bind (Triple-attempt db _ t)
        λ r. Triple-unless_err_last db e r g _ (λ x w same. record { same = same }) (λ a w p. p)

  replying-Reads :
      {A B : Type 0} (f : A → B) (m : Action F (Reply A)) → Reads m → Reads (replying f m)
  replying-Reads f m t = Triple-bind t λ r. Triple-pure _

  unless-Reads :
      {A B : Type 0} (e : AppError String) (o : Option A) (f : A → Action F (Reply B))
      → ((a : A) → Reads (f a))
      → Reads (unless e o f)
  unless-Reads e o f t = Triple-unless db e o (λ w same. record { same = same }) (λ a _. t a)

  module _ (c : Crypto) (config : Config) (env : Env F) (api : Api) where
    pub login-Reads : (email password : String) → Reads (Service.login c config env email password)
    login-Reads email password =
        Triple-Ends db (λ d _ w. Outside d w)
          λ w.
            Ends-weaken w.db _ _ (Service.login c config env email password w)
              (λ t w' p. record { same = p.0 }) (login_lem c config env email password w)

    refresh_token-Reads : (text : String) → Reads (Service.refresh_token c config env text)
    refresh_token-Reads text =
        Triple-Ends db (λ d _ w. Outside d w)
          λ w.
            Ends-weaken w.db _ _ (Service.refresh_token c config env text w)
              (λ t w' p. record { same = p.0 }) (refresh_token_lem c config env text w)

    pub handler_login-Reads :
        (body : Option LoginRequest) → Reads (Users.login c config env api body)
    unfolding Users.login
    handler_login-Reads body =
        unless-Reads _ body _ λ req. call-Reads _ _ _ (login-Reads req.email req.password)

    pub handler_refresh-Reads :
        (body : Option RefreshRequest) → Reads (Users.refresh c config env api body)
    unfolding Users.refresh
    handler_refresh-Reads body =
        unless-Reads _ body _ λ req. call-Reads _ _ _ (refresh_token-Reads req.refresh_token)

  module _ (env : Env F) (api : Api) where
    pub get_by_id-Reads : (id : ℕ) → Reads (Products.get_by_id env id)
    unfolding Products.get_by_id
    get_by_id-Reads id =
        Triple-weaken (Contract.get_by_id-Triple env id (Outside-IsSteady db)) (λ w p. p)
          (λ a w p. p.0)

    pub get_product-Reads : (id : String) → Reads (get_product env api id)
    unfolding get_product
    get_product-Reads id = unless-Reads _ _ _ λ n. call-Reads _ _ _ (get_by_id-Reads n)

    guarded_same :
        {A : Type 0} (b : Bool) (x a : A) (d : Db F)
        → ◌≡◌ {A = Result (A × Db F)} (if b then ok (x, db) else err violation) (ok (a, d))
        → d ≡ db
    guarded_same true x a d h = cc
    guarded_same false x a d h = absurd (refused_nothing h)
      where
        refused_nothing : ¬ (◌≡◌ {A = Result (_ × Db F)} (err violation) (ok (a, d)))
        refused_nothing e = cc

    list-Reads :
        (sort : ℕ → List (Product F) → List (Product F)) (f : Filter)
        → Reads (Products.list env sort f)
    unfolding Products.list Listing.list Listing.count_products Listing.query_page
        Listing.select_page
    list-Reads sort f =
        Triple-bind
          (Triple-weaken
            (Triple-on_error _ (
              Triple-exec_read env (Listing.count_products f) (λ _. Unit {0}) (Outside-IsSteady db)
                (λ n a d h. (guarded_same _ _ a d h, tt))))
            (λ w p. p) (λ a w p. p.0))
          λ total.
            Triple-bind
              (Triple-weaken
                (Triple-on_error _ (
                  Triple-numbered λ k.
                    Triple-exec_read env (Listing.select_page (sort k) f) (λ _. Unit {0})
                      (Outside-IsSteady db) (λ n a d h. (guarded_same _ _ a d h, tt))))
                (λ w p. p) (λ a w p. p.0))
              λ rows. Triple-pure _

    pub list_products-Reads :
        (sort : ℕ → List (Product F) → List (Product F)) (scan : String → Option ℤ)
        (page size category status : String)
        → Reads (list_products env api sort scan page size category status)
    unfolding list_products
    list_products-Reads sort scan page size category status = call-Reads _ _ _ (list-Reads sort _)

module _ {F : Type 0} (c : Crypto) (s : Settings) (env : Env F) (api : Api)
    (sort : ℕ → List (Product F) → List (Product F)) (scan : String → Option ℤ) where
  -- The header has no token that is valid at the time read.
  abbrev pub IsUnknown : String → World F → Type 0
  IsUnknown auth_header w =
      (bearer : String) (claims : Claims)
      → auth_header ≡ "Bearer" ++ " " ++ bearer
      → ¬ (validate_token_at c (users_config s) (env.now w.calls) bearer ≡ ok claims)

  -- How a request is treated, by its result.
  pub data Treated (e : Endpoint F) (auth_header : String) (w : World F)
      (r : Result (Reply (Body F)) × World F) : Type 0 where
    handled :
        (bearer : String) (claims : Claims)
        → auth_header ≡ "Bearer" ++ " " ++ bearer
        → validate_token_at c (users_config s) (env.now w.calls) bearer ≡ ok claims
        → r ≡ handle c s env api sort scan e (some claims) (count_call w)
        → Treated e auth_header w r
    unauthorized :
        (error : AppError String)
        → is_protected e ≡ true
        → IsUnknown auth_header w
        → error.http_status ≡ 401
        → r ≡ (ok (refused error), count_call w)
        → Treated e auth_header w r
    registers : (body : Option RegisterRequest) → e ≡ register body → Treated e auth_header w r
    reads : is_protected e ≡ false → r.1.db ≡ w.db → Treated e auth_header w r

  same_after : {A : Type 0} (w : World F) (m : Action F A) → Reads w.db m → (m w).1.db ≡ w.db
  same_after w m t = Ends-same (m w) (t.run w (record { same = refl }))
    where
      Ends-same :
          {A : Type 0} (q : Result A × World F) → Ends w.db (λ _. Outside w.db) q → q.1.db ≡ w.db
      Ends-same (ok a, v) p = p.same
      Ends-same (err e, v) p = p

  not_public : ¬ (true ≡ false)
  not_public e = cc

  public-cases :
      (e : Endpoint F) (w : World F)
      → is_protected e ≡ false
      → ((body : Option RegisterRequest) × (e ≡ register body))
        ⊎ ((handle c s env api sort scan e none w).1.db ≡ w.db)
  public-cases (register body) w h = inl (body, refl)
  public-cases (login body) w h = inr (
      same_after w _
        (replying-Reads w.db _ _ (handler_login-Reads w.db c (users_config s) env api body)))
  public-cases (refresh body) w h = inr (
      same_after w _
        (replying-Reads w.db _ _ (handler_refresh-Reads w.db c (users_config s) env api body)))
  public-cases (Router.list_products page size category status) w h = inr (
      same_after w _ (
        replying-Reads w.db _ _
          (list_products-Reads w.db env api sort scan page size category status)))
  public-cases (Router.get_product id) w h =
      inr (same_after w _ (replying-Reads w.db _ _ (get_product-Reads w.db env api id)))
  public-cases (Router.create_product _) w h = absurd (not_public h)
  public-cases (Router.update_product _ _) w h = absurd (not_public h)
  public-cases (Router.delete_product _) w h = absurd (not_public h)
  public-cases (Router.create_order _) w h = absurd (not_public h)
  public-cases (Router.get_order _) w h = absurd (not_public h)
  public-cases (Router.update_order _ _) w h = absurd (not_public h)
  public-cases (Router.cancel_order _) w h = absurd (not_public h)
  public-cases (Router.create_promo_code _) w h = absurd (not_public h)
  public-cases (Router.get_promo_code _) w h = absurd (not_public h)
  public-cases (Router.update_promo_code _ _) w h = absurd (not_public h)
  public-cases (Router.delete_promo_code _) w h = absurd (not_public h)

-- How the server treats a request. Behind the authentication middleware, a request with "Bearer", a
-- space and a token that is valid at the time read is handled with the claims of its token, and a
-- request without such a token is refused with status 401 and leaves the tables as they were. Of the
-- other requests, only a registration can change the tables.
pub dispatch-Treated :
    {F : Type 0} (c : Crypto) (s : Settings) (env : Env F) (api : Api)
    (sort : ℕ → List (Product F) → List (Product F)) (scan : String → Option ℤ) (e : Endpoint F)
    (auth_header : String) (w : World F)
    → Treated c s env api sort scan e auth_header w (dispatch c s env api sort scan e auth_header w)
unfolding dispatch pure time_now ◌>>=◌
dispatch-Treated c s env api sort scan e auth_header w = elim (Bool-cases (is_protected e)) [
  | inr public ↦ rw public (elim (public-cases c s env api sort scan e w public) [
    | inl (body, e) ↦ registers body e
    | inr same ↦ reads public same
  ])
  | inl protected ↦
      rw protected
        (elim (auth_middleware_cases (write_json c s env api sort scan)
          (validate_token_at c (users_config s) (env.now w.calls))
          (λ claims response. handle c s env api sort scan e claims) auth_header
          (pure no_content)) [
            | inl (bearer, claims, header, valid, run) ↦
                handled bearer claims header valid (ap (λ m. m (count_call w)) run)
            | inr (unknown, (error, is_401, run)) ↦
                unauthorized error protected unknown is_401 (ap (λ m. m (count_call w)) run)
          ])
]
