-- ===== src/Http/Tests.antt =====
-- Requests and responses at concrete values: the response is the list of codes of the errors in it,
-- and a number for the handler's answer.
use Prim.Native.String.{◌++◌}
use soa_hw.Prelude.{
  ℕ, ◌≡◌, refl, ◌⊎◌, String, Option, none, some, true, List, [], ◌∷◌, str_eq, if◌then◌else◌,
}
use soa_hw.Store.Action.{Result, ok, err, token_expired}
use soa_hw.Http.Errors.{AppError}
use soa_hw.Http.Writer.{
  Call, header_call, body_call, wrapped, write, write_header, run_calls, sent_status, run_calls_lem,
}
use soa_hw.Http.Logging.{chain, request_id_middleware, logging_middleware}
use soa_hw.Prelude.Int.{pos}
use soa_hw.Users.Service.{Claims}
use soa_hw.Http.Auth.{auth_middleware, auth_middleware_cases}

-- A handler that answers 404 with a body, and then sends another header.
abbrev not_found_calls : List Call
not_found_calls = header_call 404 ∷ body_call "{}" ∷ header_call 200 ∷ []

run_calls_lem_example :
    ((run_calls not_found_calls wrapped).status_code
      ≡ sent_status (run_calls not_found_calls wrapped).inner)
    × ((run_calls not_found_calls wrapped).inner ≡ header_call 404 ∷ body_call "{}" ∷ [])
run_calls_lem_example = run_calls_lem not_found_calls refl

-- After an informational header the final one is lost, and the log has the informational code.
informational_run :
    ((run_calls (header_call 103 ∷ header_call 404 ∷ body_call "{}" ∷ []) wrapped).status_code
      ≡ 103)
    × (sent_status
          (run_calls (header_call 103 ∷ header_call 404 ∷ body_call "{}" ∷ []) wrapped).inner
        ≡ 200)
unfolding run_calls write write_header
informational_run = (refl, refl)

abbrev ann : Claims
ann = record {
  user_id = "1";
  email = "ann@test.com";
  role = "USER";
  expires_at = pos 1_800_000_000_000;
  issued_at = pos 0;
  not_before = pos 0;
}

-- The service knows one token.
abbrev validate : String → Result Claims
validate token = if str_eq token "t1" then ok ann else err token_expired

abbrev write_json : AppError ℕ → List ℕ → List ℕ
write_json e w = e.http_status ∷ w

abbrev next : Option Claims → List ℕ → List ℕ
next none w = 500 ∷ w
next (some claims) w = 200 ∷ w

auth_middleware_cases_example :
    ((token : String) × (claims : Claims) × ("Bearer t2" ≡ "Bearer" ++ " " ++ token)
      × (validate token ≡ ok claims)
      × (auth_middleware write_json validate next "Bearer t2" [] ≡ next (some claims) []))
    ⊎ (((token : String) (claims : Claims)
          → "Bearer t2" ≡ "Bearer" ++ " " ++ token
          → ¬ (validate token ≡ ok claims))
        × ((e : AppError ℕ) × (e.http_status ≡ 401)
            × (auth_middleware write_json validate next "Bearer t2" [] ≡ write_json e [])))
auth_middleware_cases_example = auth_middleware_cases write_json validate next "Bearer t2" []

-- The handler's own claims do not reach the log line.
chain_run : chain "new" "" "POST" "/orders/" 0 5_000_000 (λ ctx. header_call 201 ∷ []) ≡ (
  "new",
  (
    header_call 201 ∷ [],
    record {
      request_id = "new";
      method = "POST";
      endpoint = "/orders/";
      status_code = 201;
      duration_ms = 5;
      user_id = "null";
      is_mutating = true;
    },
  ),
)
unfolding chain request_id_middleware logging_middleware run_calls soa_hw.Http.Writer.write_header
chain_run = refl
