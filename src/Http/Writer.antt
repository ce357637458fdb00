-- ===== src/Http/Writer.antt =====
-- The response writer of internal/middleware/logging.go, which remembers the status for the log. The
-- writer that it wraps is known by the calls that it gets.
use soa_hw.Prelude.{
  ℕ, ◌≡◌, refl, sym, ap, ◌∙◌, Bool, true, false, not, ◌&&◌, ◌==◌, leb, String, List, [], ◌∷◌, ◌++◌,
  if◌then◌else◌,
}
use mathlib.Core.List.{append_assoc, append-nil}

-- A call of a response writer.
pub data Call : Type 0 where
  header_call : ℕ → Call
  body_call : String → Call

pub record ResponseWriter : Type 0 where
  pub inner : List Call
  pub status_code : ℕ
  pub written : Bool

unfoldable pub write_header : ℕ → ResponseWriter → ResponseWriter
write_header code rw =
    if rw.written
    then rw
    else record { inner = rw.inner ++ header_call code ∷ []; status_code = code; written = true }

unfoldable pub write : String → ResponseWriter → ResponseWriter
write b rw =
    let rw' = if rw.written then rw else write_header 200 rw in
    record rw' { inner = rw'.inner ++ body_call b ∷ [] }

-- The writer that LoggingMiddleware makes.
abbrev pub wrapped : ResponseWriter
wrapped = record { inner = []; status_code = 200; written = false }

-- What a handler does with the writer.
unfoldable pub run_calls : List Call → ResponseWriter → ResponseWriter
run_calls [] rw = rw
run_calls (header_call code ∷ cs) rw = run_calls cs (write_header code rw)
run_calls (body_call b ∷ cs) rw = run_calls cs (write b rw)

-- The bodies that were written.
abbrev pub bodies : List Call → List Call
bodies [] = []
bodies (header_call code ∷ cs) = bodies cs
bodies (body_call b ∷ cs) = body_call b ∷ bodies cs

-- net/http sends a header of these codes at once, but a final one is still to come.
abbrev pub is_informational : ℕ → Bool
is_informational code = leb 100 code && leb code 199 && not (code == 101)

-- The final status that net/http sends for these calls: that of the first header that is not
-- informational, and 200 if a body comes first or nothing at all.
abbrev pub sent_status : List Call → ℕ
sent_status [] = 200
sent_status (header_call code ∷ cs) = if is_informational code then sent_status cs else code
sent_status (body_call b ∷ cs) = 200

-- The code of the first header, or 200.
abbrev pub first_status : List Call → ℕ
first_status [] = 200
first_status (header_call code ∷ cs) = code
first_status (body_call b ∷ cs) = 200

-- The calls with one header in front, without which nothing is sent.
abbrev pub one_header : List Call → List Call
one_header [] = []
one_header (c ∷ cs) = header_call (first_status (c ∷ cs)) ∷ bodies (c ∷ cs)

run_calls-written :
    (cs : List Call) (inner : List Call) (code : ℕ)
    → run_calls cs (record { inner = inner; status_code = code; written = true })
      ≡ record { inner = inner ++ bodies cs; status_code = code; written = true }
unfolding run_calls write write_header
run_calls-written [] inner code = rw (append-nil inner)
run_calls-written (header_call c ∷ cs) inner code = run_calls-written cs inner code
run_calls-written (body_call b ∷ cs) inner code =
    run_calls-written cs (inner ++ body_call b ∷ []) code
    ∙ rw (append_assoc inner (body_call b ∷ []) (bodies cs))

-- The first header counts, and no other reaches the wrapped writer.
pub run_calls_first :
    (cs : List Call)
    → ((run_calls cs wrapped).status_code ≡ first_status cs)
      × ((run_calls cs wrapped).inner ≡ one_header cs)
unfolding run_calls write write_header
run_calls_first [] = (refl, refl)
run_calls_first (header_call c ∷ cs) = (
  rw (run_calls-written cs (header_call c ∷ []) c),
  rw (run_calls-written cs (header_call c ∷ []) c),
)
run_calls_first (body_call b ∷ cs) = (
  rw (run_calls-written cs (header_call 200 ∷ body_call b ∷ []) 200),
  rw (run_calls-written cs (header_call 200 ∷ body_call b ∷ []) 200),
)

sent_status-one_header :
    (cs : List Call)
    → is_informational (first_status cs) ≡ false
    → sent_status (one_header cs) ≡ first_status cs
sent_status-one_header [] h = refl
sent_status-one_header (header_call c ∷ cs) h = rw h
sent_status-one_header (body_call b ∷ cs) h = refl

-- Whatever calls a handler makes whose first is not an informational header, the status that is logged
-- is the one that net/http sends for the calls that the wrapped writer gets: one header call, before
-- every body, and all the bodies in order; or none if the handler makes no call.
pub run_calls_lem :
    (cs : List Call)
    → is_informational (first_status cs) ≡ false
    → ((run_calls cs wrapped).status_code ≡ sent_status (run_calls cs wrapped).inner)
      × ((run_calls cs wrapped).inner ≡ one_header cs)
run_calls_lem cs h =
    let (status, inner) = run_calls_first cs in
    (status ∙ sym (ap sent_status inner ∙ sent_status-one_header cs h), inner)
