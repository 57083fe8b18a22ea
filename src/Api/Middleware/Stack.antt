-- ===== src/Api/Middleware/Stack.antt =====
-- The middlewares round a handler.
use microvm_agentic_sandbox.Prelude.{
  ℕ, ◌≡◌, refl, ap, ◌∙◌, String, Bool, true, false, Option, some, List, [], ◌∷◌, ◌++◌,
  if◌then◌else◌, str_eq, Bool-cases, inl, inr,
}
use microvm_agentic_sandbox.Prelude.Dict
use microvm_agentic_sandbox.Prelude.Dict.{Dict}
use microvm_agentic_sandbox.Api.Http.{write_error}
use microvm_agentic_sandbox.Api.Middleware.{
  Request, Exchange, handled, panic_logged, Handler, Middleware, first_status, write_header,
  respond, wrap_all, reversed_onto, chain, request_id, request_id_middleware, with_header,
  tenant_headers_middleware, or_empty, from_context, or_ok, logged, logging_middleware, recovered,
  recover_middleware, stack,
}

-- Each middleware round those after it.
abbrev pub nested : List Middleware → Handler → Handler
nested [] h = h
nested (m ∷ ms) h = m (nested ms h)

wrap_all-nested :
    (ms done : List Middleware) (h : Handler)
    → wrap_all (reversed_onto ms done) h ≡ wrap_all done (nested ms h)
unfolding wrap_all reversed_onto
wrap_all-nested [] done h = refl
wrap_all-nested (m ∷ ms) done h = wrap_all-nested ms (m ∷ done) h

-- For every handler and every list of middlewares: `Chain` puts each middleware round those after it,
-- so that the first is outermost.
pub chain-nested : (h : Handler) (ms : List Middleware) → chain h ms ≡ nested ms h
unfolding chain
chain-nested h ms = wrap_all-nested ms [] h

-- The request and the exchange that the handler inside the stack is given.
abbrev pub seen : String → Request → Request
seen fresh_id req = record req {
  context = with_header "operator" (req.header "X-Operator") (
      with_header "tenant_id" (req.header "X-Tenant-ID")
        (Dict.put req.context "request_id" (request_id fresh_id req)));
}

abbrev pub started : String → Request → Exchange → Exchange
started fresh_id req x = record x {
  headers = Dict.put x.headers "X-Request-ID" (request_id fresh_id req);
  recorder = some 200;
}

get-with_header :
    (key value other : String) (context : Dict String)
    → str_eq key other ≡ false
    → Dict.get (with_header key value context) other ≡ Dict.get context other
get-with_header key value other context apart = elim (Bool-cases (str_eq value "")) [
  | inl e ↦ rw e refl
  | inr e ↦ rw e (Dict.get-put context key value other ∙ rw apart refl)
]

seen-request_id :
    (fresh_id : String) (req : Request)
    → from_context "request_id" (seen fresh_id req) ≡ request_id fresh_id req
unfolding from_context
seen-request_id fresh_id req = ap or_empty (
    get-with_header "operator" (req.header "X-Operator") "request_id" _ refl
    ∙ get-with_header "tenant_id" (req.header "X-Tenant-ID") "request_id" _ refl
    ∙ Dict.get-put req.context "request_id" (request_id fresh_id req) "request_id")

closing :
    (req : Request) (outer : Option ℕ) (o : Bool × Exchange)
    → ((recovered (logged req outer o)).0 ≡ false)
      × ((recovered (logged req outer o)).1.status
          ≡ (if o.0 then first_status o.1.status 500 else o.1.status))
      × ((recovered (logged req outer o)).1.log
          ≡ o.1.log
            ++ (if o.0
                then panic_logged
                else handled
                    (from_context "request_id" req)
                    req.method
                    req.path
                    (or_ok o.1.recorder))
              ∷ [])
unfolding recovered logged respond write_header write_error
closing req outer (true, x) = (refl, refl, refl)
closing req outer (false, x) = (refl, refl, refl)

-- For every handler inside the stack of NewRouter and every request: the whole does not panic; the
-- handler sees the request id, which is the X-Request-ID header or else the fresh one, in the context,
-- and it is in the header of the response before the handler runs; if the handler panics, the status is
-- 500 unless it had sent one, and the log gets the panic and no line for the request; if it returns,
-- its status stays and the log gets one line with the request id and the recorded status.
pub stack-outcome :
    (h : Handler) (fresh_id : String) (req : Request) (x : Exchange)
    → ((chain h (stack fresh_id) req x).0 ≡ false)
      × (from_context "request_id" (seen fresh_id req) ≡ request_id fresh_id req)
      × (Dict.get (started fresh_id req x).headers "X-Request-ID" ≡ some (request_id fresh_id req))
      × ((chain h (stack fresh_id) req x).1.status ≡ (
          let o = h (seen fresh_id req) (started fresh_id req x) in
          if o.0 then first_status o.1.status 500 else o.1.status))
      × ((chain h (stack fresh_id) req x).1.log ≡ (
          let o = h (seen fresh_id req) (started fresh_id req x) in
          o.1.log
          ++ (if o.0
              then panic_logged
              else handled (request_id fresh_id req) req.method req.path (or_ok o.1.recorder))
            ∷ []))
unfolding recover_middleware request_id_middleware tenant_headers_middleware logging_middleware
stack-outcome h fresh_id req x =
    let o = h (seen fresh_id req) (started fresh_id req x) in
    let run : chain h (stack fresh_id) req x ≡ recovered (logged (seen fresh_id req) x.recorder o) =
      ap (λ k. k req x) (chain-nested h (stack fresh_id)) in
    let (returned, status, log) = closing (seen fresh_id req) x.recorder o in
    let id = seen-request_id fresh_id req in
    (
      ap (λ r. r.0) run ∙ returned,
      id,
      Dict.get-put x.headers "X-Request-ID" (request_id fresh_id req) "X-Request-ID",
      ap (λ r. r.1.status) run ∙ status,
      ap (λ r. r.1.log) run
          ∙ log
          ∙ ap
              (λ i.
                o.1.log
                ++ (if o.0
                    then panic_logged
                    else handled i req.method req.path (or_ok o.1.recorder))
                  ∷ [])
              id,
    )
