-- ===== src/Http/Auth.antt =====
-- internal/middleware/auth.go. A handler acts on the response, of type `W`; `write_json` writes an
-- error to it, as AppError.WriteJSON does, and `validate` is the service's ValidateAccessToken.
use Prim.Native.String.{[], ◌∷◌, ◌++◌}
use Prim.Native.Nat.{compare, Ordering}
use Prim.Native.Char.{Char, code}
use text.Mathlib.TextEquality.{codes_equal}
use text.Mathlib.TextLemmas.{cons-append, nil-append}
use soa_hw.Prelude.{
  ℕ, ◌≡◌, refl, subst, ap, ◌∙◌, sym, ◌⊎◌, inl, inr, Bool, true, false, String, str_eq, eq_iff,
  Option, none, some, List, any, Bool-cases, if◌then◌else◌, ◌==◌, arith,
}
use soa_hw.Prelude.Texts.{nonempty}
use soa_hw.Store.Action.{Error, token_expired, Result, ok, err}
use soa_hw.Users.Service.{Claims}
use soa_hw.Http.Errors.{AppError, new_token_expired, new_token_invalid, new_access_denied}

-- The parts of `c ∷ s`, from the test whether `c` is the space and the parts of `s`.
abbrev split_at : Bool → Char → String → Option (String × String) → Option (String × String)
split_at true c s rest = some ([], s)
split_at false c s none = none
split_at false c s (some p) = some (c ∷ p.0, p.1)

-- The parts of `strings.SplitN(s, " ", 2)`, if there are two.
unfoldable pub split_two : String → Option (String × String)
split_two [] = none
split_two (c ∷ s) = split_at (code c == 32) c s (split_two s)

-- `err.Error() == "token expired"`
abbrev pub is_token_expired : Error → Bool
is_token_expired token_expired = true
is_token_expired _ = false

-- GetUserID and GetUserRole, of the claims in the request's context.
abbrev pub get_user_id : Option Claims → String
get_user_id none = ""
get_user_id (some claims) = claims.user_id

abbrev pub get_user_role : Option Claims → String
get_user_role none = ""
get_user_role (some claims) = claims.role

module _ {D W : Type 0} (write_json : AppError D → W → W) where
  abbrev pub after_validation : (Option Claims → W → W) → W → Result Claims → W
  after_validation next w (ok claims) = next (some claims) w
  after_validation next w (err e) =
      write_json (if is_token_expired e then new_token_expired else new_token_invalid) w

  abbrev pub after_split :
      (String → Result Claims) → (Option Claims → W → W) → W → Option (String × String) → W
  after_split validate next w none = write_json new_token_invalid w
  after_split validate next w (some parts) =
      if str_eq parts.0 "Bearer"
      then after_validation next w (validate parts.1)
      else write_json new_token_invalid w

  unfoldable pub auth_middleware :
      (String → Result Claims) → (Option Claims → W → W) → String → W → W
  auth_middleware validate next auth_header w =
      if str_eq auth_header ""
      then write_json new_token_invalid w
      else after_split validate next w (split_two auth_header)

  -- The loop over the roles.
  abbrev pub has_role : Claims → List String → Bool
  has_role claims roles = any (λ role. str_eq claims.role role) roles

  unfoldable pub require_role : List String → (Option Claims → W → W) → Option Claims → W → W
  require_role roles next none w = write_json new_token_invalid w
  require_role roles next (some claims) w =
      if has_role claims roles then next (some claims) w else write_json new_access_denied w

compare_eq : (a b : ℕ) → (a == b) ≡ true → compare a b ≡ Ordering.eq
compare_eq a b h = ground arith

space_eq : (c : Char) → (code c == 32) ≡ true → c ≡ " "
space_eq c h = codes_equal c " " (compare_eq (code c) 32 h)

one_space : (s : String) → " " ++ s ≡ " " ∷ s
one_space s = cons-append " " [] s ∙ ap (λ t. " " ∷ t) (nil-append s)

split_two_step :
    (c : Char) (s a b : String) (test : Bool) (rest : Option (String × String))
    → (test ≡ true → c ≡ " ")
    → ((a' b' : String) → rest ≡ some (a', b') → s ≡ a' ++ " " ++ b')
    → split_at test c s rest ≡ some (a, b)
    → c ∷ s ≡ a ++ " " ++ b
split_two_step c s a b true rest space sound h =
    rw (sym nothing_before, sym the_rest, space refl, nil-append (" " ++ s)) (sym (one_space s))
  where
    nothing_before : [] ≡ a
    nothing_before = cc

    the_rest : s ≡ b
    the_rest = cc
split_two_step c s a b false none space sound h = cc
split_two_step c s a b false (some (x, y)) space sound h =
    rw (sym before, sym after) (ap (λ t. c ∷ t) (sound x y refl) ∙ sym (cons-append c x (" " ++ y)))
  where
    before : c ∷ x ≡ a
    before = cc

    after : y ≡ b
    after = cc

split_two_sound : (s a b : String) → split_two s ≡ some (a, b) → s ≡ a ++ " " ++ b
unfolding split_two
split_two_sound [] a b h = cc
split_two_sound (c ∷ s) a b h =
    split_two_step c s a b (code c == 32) (split_two s) (space_eq c) (split_two_sound s) h

module _ {D W : Type 0} (write_json : AppError D → W → W) (validate : String → Result Claims)
    (next : Option Claims → W → W) (w : W) where
  -- The response is an error with status 401.
  abbrev Refuses : W → Type 0
  Refuses v = (e : AppError D) × (e.http_status ≡ 401) × (v ≡ write_json e w)

  is_401 :
      (b : Bool) → (if b then new_token_expired {D = D} else new_token_invalid).http_status ≡ 401
  is_401 true = refl
  is_401 false = refl

  no_claims : (e : Error) (claims : Claims) → ¬ (◌≡◌ {A = Result Claims} (err e) (ok claims))
  no_claims e claims h = cc

  validation_cases :
      (r : Result Claims)
      → ((claims : Claims) × (r ≡ ok claims)
          × (after_validation write_json next w r ≡ next (some claims) w))
        ⊎ (((claims : Claims) → ¬ (r ≡ ok claims)) × Refuses (after_validation write_json next w r))
  validation_cases (ok claims) = inl (claims, refl, refl)
  validation_cases (err e) = inr (no_claims e, (_, is_401 (is_token_expired e), refl))

  -- No token that is accepted comes with this header, split in two.
  abbrev IsBad : Option (String × String) → Type 0
  IsBad o =
      (token : String) (claims : Claims)
      → o ≡ some ("Bearer", token)
      → ¬ (validate token ≡ ok claims)

  other_scheme :
      (scheme rest : String) → str_eq scheme "Bearer" ≡ false → IsBad (some (scheme, rest))
  other_scheme scheme rest other token claims e valid =
      absurd (cc ((eq_iff scheme "Bearer").1 same))
    where
      same : scheme ≡ "Bearer"
      same = cc

  split_cases :
      (o : Option (String × String))
      → ((token : String) × (claims : Claims) × (o ≡ some ("Bearer", token))
          × (validate token ≡ ok claims)
          × (after_split write_json validate next w o ≡ next (some claims) w))
        ⊎ (IsBad o × Refuses (after_split write_json validate next w o))
  split_cases none = inr (λ token claims e valid. absurd (cc), (new_token_invalid, refl, refl))
  split_cases (some (scheme, token)) = elim (Bool-cases (str_eq scheme "Bearer")) [
    | inr e ↦ inr (other_scheme scheme token e, (new_token_invalid, refl, rw e))
    | inl e ↦ rw e elim (validation_cases (validate token)) [
      | inl v ↦ inl (token, v.0, rw ((eq_iff scheme "Bearer").0 e), v.1, v.2)
      | inr r ↦ inr (λ t claims same valid. r.0 claims (cc), r.1)
    ]
  ]

bearer_eq :
    (token : String) → "Bearer" ++ " " ++ token ≡ "B" ∷ "e" ∷ "a" ∷ "r" ∷ "e" ∷ "r" ∷ " " ∷ token
bearer_eq token = rw (
  cons-append "B" "earer" (" " ++ token),
  cons-append "e" "arer" (" " ++ token),
  cons-append "a" "rer" (" " ++ token),
  cons-append "r" "er" (" " ++ token),
  cons-append "e" "r" (" " ++ token),
  cons-append "r" "" (" " ++ token),
  nil-append (" " ++ token),
  one_space token,
)

split_two_bearer : (token : String) → split_two ("Bearer" ++ " " ++ token) ≡ some ("Bearer", token)
unfolding split_two
split_two_bearer token = rw (bearer_eq token)

bearer_nonempty : (token : String) → ¬ (str_eq ("Bearer" ++ " " ++ token) "" ≡ true)
bearer_nonempty token h =
    absurd (cc (nonempty "B" ("e" ∷ "a" ∷ "r" ∷ "e" ∷ "r" ∷ " " ∷ token), bearer_eq token))

-- A request reaches the handler behind the middleware exactly with a header that is "Bearer", a space
-- and a token that the service accepts, and then with that token's claims; every other request is
-- answered by an error with status 401, and the handler does not run.
pub auth_middleware_cases :
    {D W : Type 0} (write_json : AppError D → W → W) (validate : String → Result Claims)
    (next : Option Claims → W → W) (auth_header : String) (w : W)
    → ((token : String) × (claims : Claims) × (auth_header ≡ "Bearer" ++ " " ++ token)
        × (validate token ≡ ok claims)
        × (auth_middleware write_json validate next auth_header w ≡ next (some claims) w))
      ⊎ (((token : String) (claims : Claims)
            → auth_header ≡ "Bearer" ++ " " ++ token
            → ¬ (validate token ≡ ok claims))
          × ((e : AppError D) × (e.http_status ≡ 401)
              × (auth_middleware write_json validate next auth_header w ≡ write_json e w)))
unfolding auth_middleware
auth_middleware_cases write_json validate next auth_header w =
    elim (Bool-cases (str_eq auth_header "")) [
      | inl e ↦ inr (
        λ token claims header valid.
            absurd (bearer_nonempty token (subst (λ h. str_eq h "" ≡ true) header e)),
        (new_token_invalid, refl, rw e),
      )
      | inr e ↦ rw e elim (split_cases write_json validate next w (split_two auth_header)) [
        | inl v ↦ inl (v.0, v.1, split_two_sound auth_header "Bearer" v.0 v.2, v.3, v.4)
        | inr r ↦ inr (
          λ token claims header. r.0 token claims (ap split_two header ∙ split_two_bearer token),
          r.1,
        )
      ]
    ]

-- A request whose header is "Bearer", a space and a token that the service accepts reaches the
-- handler with the token's claims.
pub auth_middleware_accepts :
    {D W : Type 0} (write_json : AppError D → W → W) (validate : String → Result Claims)
    (next : Option Claims → W → W) (token : String) (claims : Claims) (w : W)
    → validate token ≡ ok claims
    → auth_middleware write_json validate next ("Bearer" ++ " " ++ token) w ≡ next (some claims) w
unfolding auth_middleware split_two
auth_middleware_accepts write_json validate next token claims w h =
    rw (bearer_eq token, nonempty _ _, h)
