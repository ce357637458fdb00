-- ===== src/Http/Logging.antt =====
-- The middleware of internal/middleware/requestid.go and internal/middleware/logging.go around a
-- handler. A handler is known by the calls that it makes for the values of its context; times are in
-- nanoseconds.
use soa_hw.Prelude.{
  ℕ, ◌-◌, ◌/◌, ◌||◌, Bool, String, str_eq, Option, none, some, List, if◌then◌else◌,
}
use soa_hw.Users.Service.{Claims}
use soa_hw.Http.Writer.{Call, wrapped, run_calls}

-- The values of a request's context.
pub record Context : Type 0 where
  pub request_id : Option String
  pub claims : Option Claims

abbrev pub background : Context
background = record { request_id = none; claims = none }

abbrev pub get_request_id : Context → String
get_request_id ctx = elim ctx.request_id [ none ↦ "" | some id ↦ id ]

-- The identifier of the request, which is also the response's header, and the rest of the chain.
-- `new_id` is what uuid.New() returns.
unfoldable pub request_id_middleware :
    {A : Type 0} → String → (Context → A) → String → Context → String × A
request_id_middleware new_id next header ctx =
    let id = if str_eq header "" then new_id else header in
    (id, next (record ctx { request_id = some id }))

-- The fields of the log line.
pub record LogEvent : Type 0 where
  pub request_id : String
  pub method : String
  pub endpoint : String
  pub status_code : ℕ
  pub duration_ms : ℕ
  pub user_id : String
  pub is_mutating : Bool

abbrev pub user_or_null : Option Claims → String
user_or_null none = "null"
user_or_null (some claims) = claims.user_id

-- The calls that the client's writer gets, and the log line, for a request that begins and ends at
-- these times. The context is the one that this middleware was called with.
unfoldable pub logging_middleware :
    String → String → ℕ → ℕ → (Context → List Call) → Context → List Call × LogEvent
logging_middleware method path start end next ctx =
    let rw = run_calls (next ctx) wrapped in
    (
      rw.inner,
      record {
        request_id = get_request_id ctx;
        method = method;
        endpoint = path;
        status_code = rw.status_code;
        duration_ms = (end - start) / 1_000_000;
        user_id = user_or_null ctx.claims;
        is_mutating = str_eq method "POST" || str_eq method "PUT" || str_eq method "DELETE";
      },
    )

-- The chain of `main`: the authentication middleware, which adds the claims, is a part of `handler`.
unfoldable pub chain :
    String
    → String
    → String
    → String
    → ℕ
    → ℕ
    → (Context → List Call)
    → String × (List Call × LogEvent)
chain new_id header method path start end handler =
    request_id_middleware new_id (logging_middleware method path start end handler) header
      background
