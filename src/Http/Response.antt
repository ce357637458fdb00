-- ===== src/Http/Response.antt =====
-- How the handlers write a reply: `WriteJSON` of internal/errors/errors.go for an error, and the ends
-- of the handlers for the rest. `error_json` and `json` are what the JSON encoder makes of an error and
-- of the body of a successful reply.
use soa_hw.Prelude.{ℕ, ◌≡◌, refl, ◌∙◌, String, List, [], ◌∷◌}
use soa_hw.Http.Errors.{AppError}
use soa_hw.Http.Reply.{Reply, refused, created, answered, no_content}
use soa_hw.Http.Writer.{Call, header_call, body_call, first_status, one_header, run_calls_first}
use soa_hw.Http.Logging.{Context, logging_middleware}

abbrev pub write_json : {D : Type 0} → (AppError D → String) → AppError D → List Call
write_json error_json e = header_call e.http_status ∷ body_call (error_json e) ∷ []

-- A reply without a call of WriteHeader gets its status from the first write.
unfoldable pub respond :
    {A : Type 0} → (AppError String → String) → (A → String) → Reply A → List Call
respond error_json json (refused e) = write_json error_json e
respond error_json json (created a) = header_call 201 ∷ body_call (json a) ∷ []
respond error_json json (answered a) = body_call (json a) ∷ []
respond error_json json no_content = header_call 204 ∷ []

abbrev pub reply_status : {A : Type 0} → Reply A → ℕ
reply_status (refused e) = e.http_status
reply_status (created a) = 201
reply_status (answered a) = 200
reply_status no_content = 204

respond-first :
    {A : Type 0} (error_json : AppError String → String) (json : A → String) (r : Reply A)
    → first_status (respond error_json json r) ≡ reply_status r
unfolding respond
respond-first error_json json (refused e) = refl
respond-first error_json json (created a) = refl
respond-first error_json json (answered a) = refl
respond-first error_json json no_content = refl

-- The log line of a request has the status of the reply that the handler writes, and the client's
-- writer gets the calls that the handler makes for this reply with one header in front, of that status.
pub logged_reply :
    {A : Type 0} (error_json : AppError String → String) (json : A → String)
    (handler : Context → Reply A) (method path : String) (start end : ℕ) (ctx : Context)
    → ((logging_middleware method path start end
          (λ c. respond error_json json (handler c))
          ctx).1.status_code
        ≡ reply_status (handler ctx))
      × ((logging_middleware method path start end (λ c. respond error_json json (handler c)) ctx).0
          ≡ one_header (respond error_json json (handler ctx)))
unfolding logging_middleware
logged_reply error_json json handler method path start end ctx = (
  (run_calls_first (respond error_json json (handler ctx))).0
      ∙ respond-first error_json json (handler ctx),
  (run_calls_first (respond error_json json (handler ctx))).1,
)
