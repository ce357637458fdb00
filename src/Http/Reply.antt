-- ===== src/Http/Reply.antt =====
-- What the handlers share: how a handler calls its service, and what it writes. `Api` has what the
-- handlers take from uuid and from the errors' texts. The body of a request is given as the JSON
-- decoder returns it, and the body of a successful reply as the value that is encoded.
pub mod Rules
pub mod Keeps
use soa_hw.Prelude.{ℕ, Bool, ◌||◌, not, String, str_eq, Option, none, some, [], if◌then◌else◌}
use soa_hw.Store.Action.{Error, Result, ok, err, Action, pure}
use soa_hw.Http.Errors.{AppError, new_app_error, validation_error, new_access_denied}

pub record Api : Type 0 where
  pub parse_uuid : String → Option ℕ
  pub uuid_text : ℕ → String
  pub error_text : Error → String

-- `if id != nil { s := id.String(); field = &s }`
abbrev pub optional_text : Api → Option ℕ → Option String
optional_text api none = none
optional_text api (some id) = some (api.uuid_text id)

-- An error, 201 with a value, 200 with a value, or 204.
pub data Reply (A : Type 0) : Type 0 where
  refused : AppError String → Reply A
  created : A → Reply A
  answered : A → Reply A
  no_content : Reply A

-- A call of the service, whose error the handler looks at.
unfoldable pub attempt : {F A : Type 0} → Action F A → Action F (Result A)
attempt m w = let (r, w') = m w in (ok r, w')

-- `if err != nil { write e; return }` around the rest of a handler
abbrev pub unless :
    {F A B : Type 0} → AppError String → Option A → (A → Action F (Reply B)) → Action F (Reply B)
unless e none f = pure (refused e)
unless e (some a) f = f a

-- The same for the result of a call.
abbrev pub unless_err :
    {F A B : Type 0}
    → (Error → AppError String)
    → Result A
    → (A → Action F (Reply B))
    → Action F (Reply B)
unless_err e (ok a) f = f a
unless_err e (err x) f = pure (refused (e x))

-- The error that a handler makes of an error of the service, with this status.
abbrev pub service_error : Api → ℕ → Error → AppError String
service_error api status e = new_app_error validation_error (api.error_text e) status

-- `if forbidden { NewAccessDenied; return }` around the rest of a handler
abbrev pub deny_if : {F B : Type 0} → Bool → Action F (Reply B) → Action F (Reply B)
deny_if forbidden m = if forbidden then pure (refused new_access_denied) else m

-- `role != SELLER && role != ADMIN`
abbrev pub is_no_trader : String → Bool
is_no_trader role = not (str_eq role "SELLER" || str_eq role "ADMIN")

-- `if new != nil { field = *new }`
abbrev pub or_old : {A : Type 0} → Option A → A → A
or_old none old = old
or_old (some a) old = a
