-- ===== src/Tests/Middlewares.antt =====
-- adapter/internal/api/middleware.go and the waiting of adapter/internal/exec/record.go at concrete inputs.
use microvm_agentic_sandbox.Prelude.{
  ◌≡◌, ◌≤◌, true, false, some, none, [], ◌∷◌, ◌++◌, str_eq, if◌then◌else◌, length,
}
use microvm_agentic_sandbox.Prelude.Dict
use microvm_agentic_sandbox.Exec.Record.{open_channel}
use microvm_agentic_sandbox.Exec.Waiting.{wait, returns, closed_rounds, wait-ended}
use microvm_agentic_sandbox.Api.Http.{no_content}
use microvm_agentic_sandbox.Api.Middleware.{
  Request, Exchange, Handler, panic_logged, first_status, respond, request_id, from_context, chain,
  stack,
}
use microvm_agentic_sandbox.Api.Middleware.Stack.{
  nested, chain-nested, seen, started, stack-outcome,
}
use microvm_agentic_sandbox.Tests.Streams.{ended, ended_over}

-- a handler that answers 204 and then panics
abbrev breaks : Handler
breaks req x = (true, respond no_content x)

abbrev asked : Request
asked = record {
  method = "GET";
  path = "/healthz";
  header = λ name. if str_eq name "X-Request-ID" then "r1" else "";
  context = [];
}

abbrev untouched : Exchange
untouched = record { headers = []; status = none; bodies = []; recorder = none; log = [] }

stack-outcome_example :
    ((chain breaks (stack "f1") asked untouched).0 ≡ false)
    × (from_context "request_id" (seen "f1" asked) ≡ request_id "f1" asked)
    × (Dict.get (started "f1" asked untouched).headers "X-Request-ID"
        ≡ some (request_id "f1" asked))
    × ((chain breaks (stack "f1") asked untouched).1.status
        ≡ first_status (respond no_content (started "f1" asked untouched)).status 500)
    × ((chain breaks (stack "f1") asked untouched).1.log
        ≡ (respond no_content (started "f1" asked untouched)).log ++ panic_logged ∷ [])
stack-outcome_example = stack-outcome breaks "f1" asked untouched

chain-nested_example : chain breaks (stack "f1") ≡ nested (stack "f1") breaks
chain-nested_example = chain-nested breaks (stack "f1")

wait-ended_example :
    (wait (λ ch. closed_rounds ended ch.buffer) ended ≡ returns ended.status ended.exit_code)
    × ((open_channel 0 ended).closed ≡ true)
    × (length (closed_rounds ended (open_channel 0 ended).buffer) ≤ 65)
wait-ended_example = wait-ended ended ended_over
