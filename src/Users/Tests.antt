-- ===== src/Users/Tests.antt =====
-- Registration and login with a bcrypt and a jwt that keep what they are given in their texts.
use Prim.Native.String.{[], ◌∷◌}
use Prim.Native.Char.{code}
use soa_hw.Prelude.{
  ℕ, zero, suc, ◌+◌, ◌≤◌, ◌≡◌, refl, sym, ap, subst, Bool, true, false, String, str_eq, eq_iff,
  Option, none, some, arith, if◌then◌else◌, ◌==◌,
}
use mathlib.Core.List.{List, ◌∷◌ as ◌∷◌}
use soa_hw.Prelude.Int.{pos, ◌+ℤ◌, ◌≤ℤ◌}
use soa_hw.Domain.{User, role_user}
use soa_hw.Store.{World}
use soa_hw.Store.Schema.{fits}
use soa_hw.Store.Action.{ok}
use soa_hw.Store.Outcome.{Ends}
use soa_hw.Http.Reply.{Api}
use soa_hw.Fixtures.{env, no_tables}
use soa_hw.Users.Service.{
  Claims, Parsed, token, failed, Crypto, Config, register, login, refresh_token,
}
use soa_hw.Users.Tokens.{SameHolder, second, IsSound, IsAccepted, login_tokens}
use soa_hw.Users.Login.{LoggedIn}
use soa_hw.Users.Register.{register_then_login}
use soa_hw.Users.Refresh.{Refreshed, refresh_token_lem}
use soa_hw.Users.Access.{Opens, login-Opens}
use soa_hw.Users.Handler as Handler
use soa_hw.Users.Handler.{RegisterRequest, LoginRequest}
use soa_hw.Users.Replies.{LoginReply, RegisterReply, login_replies, register_replies}

-- A text in front of another: an "x" before each character, and a "y" at the end.
abbrev pack : String → String → String
pack [] t = "y" ∷ t
pack (c ∷ s) t = "x" ∷ c ∷ pack s t

abbrev unpack : Bool → String → String × String
unpack b [] = ([], [])
unpack true (c ∷ s) = let rest = unpack false s in (c ∷ rest.0, rest.1)
unpack false (c ∷ s) = let rest = unpack true s in if code c == 121 then ([], s) else rest

unpack-pack : (s t : String) → unpack false (pack s t) ≡ (s, t)
unpack-pack [] t = refl
unpack-pack (c ∷ s) t = ap (λ (p : String × String). (c ∷ p.0, p.1)) (unpack-pack s t)

abbrev unary : ℕ → String
unary zero = []
unary (suc n) = "x" ∷ unary n

abbrev tally : String → ℕ
tally [] = 0
tally (c ∷ s) = suc (tally s)

tally-unary : (n : ℕ) → tally (unary n) ≡ n
tally-unary zero = refl
tally-unary (suc n) = ap suc (tally-unary n)

abbrev text_of : Claims → String
text_of claims = pack claims.user_id (pack claims.email (pack claims.role []))

abbrev claims_from : String × String → String × String → String × String → Claims
claims_from a b c = record {
  user_id = a.0;
  email = b.0;
  role = c.0;
  expires_at = pos 0;
  issued_at = pos 0;
  not_before = pos 0;
}

abbrev read_claims : String → Claims
read_claims text =
    let a = unpack false text in let b = unpack false a.1 in claims_from a b (unpack false b.1)

-- A hash that is the password, if it is short enough.
abbrev hash_of : Bool → String → Option String
hash_of true password = some password
hash_of false password = none

hash_of-cases :
    (b : Bool) (password hashed : String)
    → hash_of b password ≡ some hashed
    → (b ≡ true) × (password ≡ hashed)
hash_of-cases true password hashed h = (refl, cc)
hash_of-cases false password hashed h = absurd (cc)

fits_more : (s : String) → fits 72 s ≡ true → fits 255 s ≡ true
fits_more s h = ground arith

abbrev open_crypto : Crypto
open_crypto = record {
  generate_from_password = λ salt password. hash_of (fits 72 password) password;
  compare_hash_and_password = λ hashed password. str_eq hashed password;
  signed_string = λ secret claims. some (text_of claims);
  parse_with_claims = λ key now text. token (read_claims text) true;
  parse_uuid = λ s. some (tally s);
  uuid_text = unary;
}

read_claims-SameHolder : (claims : Claims) → SameHolder (read_claims (text_of claims)) claims
read_claims-SameHolder claims = record {
  user_id = rw (unpack-pack claims.user_id (pack claims.email (pack claims.role [])));
  email = rw (
    unpack-pack claims.user_id (pack claims.email (pack claims.role [])),
    unpack-pack claims.email (pack claims.role []),
  );
  role = rw (
    unpack-pack claims.user_id (pack claims.email (pack claims.role [])),
    unpack-pack claims.email (pack claims.role []),
    unpack-pack claims.role [],
  );
}

signed_text :
    (claims : Claims) (text : String) → some (text_of claims) ≡ some text → text_of claims ≡ text
signed_text claims text h = cc

open_crypto-IsSound : IsSound open_crypto
open_crypto-IsSound = record {
  matches = λ salt password hashed h.
      (eq_iff hashed password).1 (sym (hash_of-cases (fits 72 password) password hashed h).1);
  short = λ salt password hashed h.
      let (is_short, same) = hash_of-cases (fits 72 password) password hashed h in
      fits_more hashed (subst (λ s. fits 72 s ≡ true) same is_short);
  accepts = λ secret text claims now h issued left.
      subst
        (λ t.
          (claims' : Claims) × (token (read_claims t) true ≡ token claims' true)
          × SameHolder claims' claims)
        (signed_text claims text h)
        (read_claims (text_of claims), refl, read_claims-SameHolder claims);
  reads_back = λ id. ap some (tally-unary id);
}

abbrev config : Config
config = record {
  jwt_secret = "secret";
  access_expiry = pos 1_800_000_000_000;
  refresh_expiry = pos 604_800_000_000_000;
}

-- The state after Ann has registered.
abbrev with_ann : World ℕ
with_ann = (register open_crypto config env "ann@test.com" "pw" role_user no_tables).1

abbrev ann : User
ann = record {
  id = 101;
  email = "ann@test.com";
  password_hash = "pw";
  role = role_user;
  created_at = 1_000_000_000_002;
  updated_at = 1_000_000_000_003;
}

register_run :
    register open_crypto config env "ann@test.com" "pw" role_user no_tables ≡ (ok ann, with_ann)
unfolding soa_hw.Users.Service.register soa_hw.Users.Service.hash_password
    soa_hw.Users.Repository.create soa_hw.Users.Repository.insert_user
    soa_hw.Users.Repository.put_user soa_hw.Store.Action.◌>>=◌ soa_hw.Store.Action.on_error
    soa_hw.Store.Action.exec soa_hw.Store.Action.pure soa_hw.Store.Action.time_now
    soa_hw.Store.Action.uuid_new soa_hw.Store.Action.or_raise soa_hw.Store.Schema.user_row
    soa_hw.Store.Schema.fresh_email soa_hw.Store.Schema.varchar
register_run = refl

register_then_login_example :
    (tokens : String × String) × ((login open_crypto config env "ann@test.com" "pw" with_ann).0
      ≡ ok tokens)
register_then_login_example =
    register_then_login open_crypto config env "ann@test.com" "pw" role_user no_tables ann with_ann
      open_crypto-IsSound refl (λ n. refl) (λ claims. (text_of claims, refl)) register_run

login_tokens_example :
    Ends with_ann.db
      (λ tokens _.
        (l : LoggedIn open_crypto config env with_ann.db with_ann.calls "ann@test.com" "pw" tokens)
        × ((now : ℕ)
            → l.access.at ≤ now
            → pos (now + second) ≤ℤ pos l.access.at +ℤ config.access_expiry
            → IsAccepted open_crypto config now tokens.0 l.user)
        × ((now : ℕ)
            → l.refresh.at ≤ now
            → pos (now + second) ≤ℤ pos l.refresh.at +ℤ config.refresh_expiry
            → IsAccepted open_crypto config now tokens.1 l.user))
      (login open_crypto config env "ann@test.com" "pw" with_ann)
login_tokens_example =
    login_tokens open_crypto config env "ann@test.com" "pw" with_ann open_crypto-IsSound

-- The refresh token that Ann gets.
abbrev ann_token : String
ann_token = pack (unary 101) (pack "ann@test.com" (pack "USER" []))

refresh_token_lem_example :
    Ends with_ann.db
      (λ access w'.
        (w'.db ≡ with_ann.db)
        × Refreshed open_crypto config env with_ann.db with_ann.calls ann_token access)
      (refresh_token open_crypto config env ann_token with_ann)
refresh_token_lem_example = refresh_token_lem open_crypto config env ann_token with_ann

login-Opens_example :
    Ends with_ann.db
      (λ tokens _.
        Opens open_crypto config env {D = ℕ} {W = List ℕ}
          (λ e r. e.http_status ∷ r)
          (λ who r. 200 ∷ r)
          with_ann.db
          with_ann.calls
          "ann@test.com"
          "pw"
          tokens)
      (login open_crypto config env "ann@test.com" "pw" with_ann)
login-Opens_example =
    login-Opens open_crypto config env (λ e r. e.http_status ∷ r) (λ who r. 200 ∷ r) "ann@test.com"
      "pw" with_ann open_crypto-IsSound

abbrev api : Api
api = record { parse_uuid = λ s. some (tally s); uuid_text = unary; error_text = λ e. "error" }

login_replies_example :
    Ends with_ann.db
      (LoginReply open_crypto config env with_ann.db with_ann.calls
        (some (record { email = "ann@test.com"; password = "wrong" })))
      (Handler.login open_crypto config env api
        (some (record { email = "ann@test.com"; password = "wrong" }))
        with_ann)
login_replies_example =
    login_replies open_crypto config env api
      (some (record { email = "ann@test.com"; password = "wrong" })) with_ann

register_replies_example :
    Ends no_tables.db
      (RegisterReply open_crypto config env no_tables.db no_tables.calls
        (some (record { email = "ann@test.com"; password = "pw"; role = "USER" })))
      (Handler.register open_crypto config env api
        (some (record { email = "ann@test.com"; password = "pw"; role = "USER" }))
        no_tables)
register_replies_example =
    register_replies open_crypto config env api
      (some (record { email = "ann@test.com"; password = "pw"; role = "USER" })) no_tables
