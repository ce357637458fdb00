-- ===== src/Users/Refresh.antt =====
-- What the refresh of a token checks and issues.
use soa_hw.Prelude.{ℕ, ◌≡◌, refl, ◌∙◌, some, find, String, arith}
use soa_hw.Domain.{User}
use soa_hw.Store.{Env, Db, World}
use soa_hw.Store.Action.{Result, ok, err}
use soa_hw.Store.Outcome.{
  Ends, Triple, Returns, Triple-bind_fact, Triple-on_error, Triple-or_raise, Triple-or_raise_last,
  Triple-raise, Triple-return, Triple-weaken,
}
use soa_hw.Store.Statements.{Triple-exec_select}
use soa_hw.Users.Repository as Repository
use soa_hw.Users.Repository.{has_id, select_by_id}
use soa_hw.Users.Service.{
  Claims, Crypto, Config, return_result, validate_token_at, validate_token, refresh_token,
}
use soa_hw.Users.Login.{IsRead, Since, Since-IsSteady, Triple-clock, Signed, generate_token-Triple}

-- The text was accepted at a time during the call, and the new token is for the user that it names, as
-- the committed table has that user.
pub record Refreshed {F : Type 0} (c : Crypto) (config : Config) (env : Env F) (db : Db F)
    (start : ℕ) (text access : String) : Type 0 where
  pub at : ℕ
  pub read : IsRead env start at
  pub claims : Claims
  pub valid : validate_token_at c config at text ≡ ok claims
  pub id : ℕ
  pub named : c.parse_uuid claims.user_id ≡ some id
  pub user : User
  pub found : find (has_id id) db.users ≡ some user
  pub issued : Signed c config env start user config.access_expiry access

module _ {F : Type 0} (c : Crypto) (config : Config) (env : Env F) (db : Db F) (start : ℕ) where
  Triple-return_result :
      {A : Type 0} (r : Result A)
      → Triple db
          (Since db start)
          (return_result c config r)
          (Returns (Since db start) (λ a. r ≡ ok a))
  Triple-return_result (ok a) = Triple-return _ refl
  Triple-return_result (err e) = Triple-raise _ (Since-IsSteady env db start)

  get_by_id-Triple :
      (id : ℕ)
      → Triple db
          (Since db start)
          (Repository.get_by_id env id)
          (Returns (Since db start) (λ u. find (has_id id) db.users ≡ some u))
  unfolding Repository.get_by_id select_by_id
  get_by_id-Triple id =
      Triple-bind_fact
        (Triple-on_error _
          (Triple-exec_select env (select_by_id id) _ (Since-IsSteady env db start) (λ n. refl)))
        λ found e.
          Triple-weaken (Triple-or_raise_last found _ (Since-IsSteady env db start)) (λ w p. p)
            (λ a w r. (r.0, e ∙ r.1))

  refresh_token-Triple :
      (text : String)
      → Triple db
          (Since db start)
          (refresh_token c config env text)
          (Returns (Since db start) (Refreshed c config env db start text))
  unfolding refresh_token validate_token
  refresh_token-Triple text =
      Triple-bind_fact
        (Triple-bind_fact (Triple-clock env db start) λ now read.
          Triple-weaken (Triple-return_result (validate_token_at c config now text)) (λ w p. p)
            (λ claims w p. (
              p.0,
              let s : (at : ℕ) × IsRead env start at
                      × (validate_token_at c config at text ≡ ok claims) =
                    (now, read, p.1) in
                  s,
            )))
        λ claims v. Triple-or_raise _ _ (Since-IsSteady env db start) λ id named.
          Triple-bind_fact (Triple-on_error _ (get_by_id-Triple id)) λ user found.
            Triple-weaken
              (Triple-on_error _
                (generate_token-Triple c config env db start user config.access_expiry))
              (λ w p. p)
              (λ access w p. (
                p.0,
                record {
                  at = v.0;
                  read = v.1;
                  claims = claims;
                  valid = v.2;
                  id = id;
                  named = named;
                  user = user;
                  found = found;
                  issued = p.1;
                },
              ))

-- A successful refresh changes no table. The text was a token that was accepted at a time read during
-- the call, of a user who is in the committed table, and the new access token is for this user as the
-- table has them now, whatever email or role the old token says. If the refresh fails, it changes no
-- table either.
pub refresh_token_lem :
    {F : Type 0} (c : Crypto) (config : Config) (env : Env F) (text : String) (w : World F)
    → Ends w.db
        (λ access w'. (w'.db ≡ w.db) × Refreshed c config env w.db w.calls text access)
        (refresh_token c config env text w)
refresh_token_lem c config env text w =
    (Triple-weaken (refresh_token-Triple c config env w.db w.calls text) (λ w p. p)
        (λ t w' p. (p.0.same, p.1))).run
      w (record { same = refl; late = omega arith })
