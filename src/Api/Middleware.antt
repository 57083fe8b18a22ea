-- ===== src/Api/Middleware.antt =====
-- adapter/internal/api/middleware.go: the middlewares and `Chain`, with the stack of
-- adapter/internal/api/router.go. A handler acts on an `Exchange`: what the client has been sent, and the
-- log of the server; it tells whether it panicked.
pub mod Stack
use microvm_agentic_sandbox.Prelude.{
  ℕ, String, Bool, true, false, Option, none, some, List, [], ◌∷◌, ◌++◌, if◌then◌else◌, str_eq,
}
use microvm_agentic_sandbox.Prelude.Dict
use microvm_agentic_sandbox.Prelude.Dict.{Dict}
use microvm_agentic_sandbox.Api.Http.{Body, HttpResponse, write_error}

-- `context` has the values of the `ctxKey`s; a header that is missing is "".
pub record Request : Type 0 where
  pub method : String
  pub path : String
  pub header : String → String
  pub context : Dict String

pub data LogEntry : Type 0 where
  handled : String → String → String → ℕ → LogEntry
  panic_logged : LogEntry

-- `recorder` is the status of the `statusRecorder` that wraps the writer, if one does.
pub record Exchange : Type 0 where
  pub headers : Dict String
  pub status : Option ℕ
  pub bodies : List Body
  pub recorder : Option ℕ
  pub log : List LogEntry

abbrev pub Handler : Type 0
Handler = Request → Exchange → Bool × Exchange

abbrev pub Middleware : Type 0
Middleware = Handler → Handler

-- Only the first status is sent.
pub first_status : Option ℕ → ℕ → Option ℕ
first_status none code = some code
first_status (some sent) code = some sent

record_status : Option ℕ → ℕ → Option ℕ
record_status none code = none
record_status (some last) code = some code

-- `WriteHeader`, of the writer and of the `statusRecorder` round it
unfoldable pub write_header : ℕ → Exchange → Exchange
unfolding first_status record_status
write_header code x = record x {
  status = first_status x.status code;
  recorder = record_status x.recorder code;
}

-- `writeJSON`
unfoldable pub respond : HttpResponse → Exchange → Exchange
respond r x =
    let sent =
      write_header r.status
        (record x { headers = Dict.put x.headers "Content-Type" r.content_type }) in
    record sent { bodies = sent.bodies ++ r.body ∷ [] }

-- the loop of `Chain`, from the last middleware to the first
wrap_all : List Middleware → Handler → Handler
wrap_all [] h = h
wrap_all (m ∷ ms) h = wrap_all ms (m h)

reversed_onto : List Middleware → List Middleware → List Middleware
reversed_onto [] done = done
reversed_onto (m ∷ ms) done = reversed_onto ms (m ∷ done)

unfoldable pub chain : Handler → List Middleware → Handler
unfolding wrap_all reversed_onto
chain h mws = wrap_all (reversed_onto mws []) h

-- `fresh_id` is what `newRequestID` draws.
abbrev pub request_id : String → Request → String
request_id fresh_id req =
    let given = req.header "X-Request-ID" in if str_eq given "" then fresh_id else given

unfoldable pub request_id_middleware : String → Middleware
request_id_middleware fresh_id next req x =
    let id = request_id fresh_id req in
    next (record req { context = Dict.put req.context "request_id" id })
      (record x { headers = Dict.put x.headers "X-Request-ID" id })

-- `context.WithValue`, where the header is there
abbrev pub with_header : String → String → Dict String → Dict String
with_header key value context = if str_eq value "" then context else Dict.put context key value

unfoldable pub tenant_headers_middleware : Middleware
tenant_headers_middleware next req x =
    next
      (record req {
        context =
            with_header "operator" (req.header "X-Operator")
              (with_header "tenant_id" (req.header "X-Tenant-ID") req.context);
      })
      x

abbrev pub or_empty : Option String → String
or_empty none = ""
or_empty (some s) = s

-- `RequestIDFromContext`, `TenantIDFromContext` and `OperatorFromContext`
unfoldable pub from_context : String → Request → String
from_context key req = or_empty (Dict.get req.context key)

pub or_ok : Option ℕ → ℕ
or_ok none = 200
or_ok (some code) = code

-- Past the handler; a panic passes the line by that logs.
logged : Request → Option ℕ → Bool × Exchange → Bool × Exchange
logged req outer (true, x) = (true, record x { recorder = outer })
logged req outer (false, x) = (
  false,
  record x {
    recorder = outer;
    log =
        x.log
        ++ handled (from_context "request_id" req) req.method req.path (or_ok x.recorder) ∷ [];
  },
)

unfoldable pub logging_middleware : Middleware
unfolding logged or_ok
logging_middleware next req x = logged req x.recorder (next req (record x { recorder = some 200 }))

recovered : Bool × Exchange → Bool × Exchange
recovered (false, x) = (false, x)
recovered (true, x) = (
  false,
  respond (write_error 500 "internal_error" "internal server error")
      (record x { log = x.log ++ panic_logged ∷ [] }),
)

unfoldable pub recover_middleware : Middleware
unfolding recovered
recover_middleware next req x = recovered (next req x)

-- what `NewRouter` puts round its routes
abbrev pub stack : String → List Middleware
stack fresh_id =
    recover_middleware
    ∷ request_id_middleware fresh_id
    ∷ tenant_headers_middleware
    ∷ logging_middleware
    ∷ []
