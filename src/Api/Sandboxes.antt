-- ===== src/Api/Sandboxes.antt =====
-- adapter/internal/api/sandboxes.go: `SandboxHandler`.
pub mod Creation
pub mod Deletion
use Prim.Native.String
use microvm_agentic_sandbox.Prelude.{
  String, Bool, true, false, Option, none, some, str_eq, if◌then◌else◌, Time,
}
use microvm_agentic_sandbox.Exec.Table.{EnvCodec}
use microvm_agentic_sandbox.Exec.Registry.{Registry, delete_by_sandbox}
use microvm_agentic_sandbox.Sandbox.Table.{Sandbox, CreateSpec}
use microvm_agentic_sandbox.Sandbox.Manager.{
  Manager, Result, done_with, failed, Answers, DeleteReply, create, delete_sandbox,
}
use microvm_agentic_sandbox.Api.Types.{
  CreateSandboxRequest, CreateSandboxResponse, GetSandboxResponse,
}
use microvm_agentic_sandbox.Api.Http.{
  HttpResponse, created_body, sandbox_body, write_json, write_error, no_content, Texts, Decoded,
  body_of, malformed, Handled, go, stop, panics, ◌>>=◌,
}
use microvm_agentic_sandbox.Api.Execs.{Server, live_sandbox}

unfoldable pub spec_of : String → CreateSandboxRequest → CreateSpec
spec_of session_id req = record {
  id = session_id;
  image = req.image_id;
  flavor = req.flavor;
  tenant_id = req.tenant_id;
  tags = req.tags;
  environment = req.environment;
  network_egress = req.network_egress;
  max_session_seconds = req.max_session_seconds;
  idle_timeout_seconds = req.idle_timeout_seconds;
  idle_action = req.idle_action;
  callback_url = req.callback_url;
}

unfoldable pub create_sandbox_response : Sandbox → CreateSandboxResponse
create_sandbox_response sb = record {
  session_id = sb.id;
  status = sb.status;
  deadline = sb.deadline;
  session_event_stream = String.◌++◌ "/api/v1/sandboxes/" (String.◌++◌ sb.id "/events");
}

unfoldable pub get_sandbox_response : Sandbox → GetSandboxResponse
get_sandbox_response sb = record {
  session_id = sb.id;
  status = sb.status;
  flavor = sb.flavor;
  image_id = sb.image;
  tenant_id = sb.tenant_id;
  tags = sb.tags;
  created_at = sb.created;
  deadline = some sb.deadline;
}

-- The body, past the tests on its fields.
unfoldable pub checked_request : Decoded CreateSandboxRequest → Handled CreateSandboxRequest
checked_request (malformed text) =
    stop (write_error 400 "invalid_body" (String.◌++◌ "could not parse request body: " text))
checked_request (body_of req) =
    if str_eq req.flavor ""
    then stop (write_error 400 "missing_flavor" "flavor is required")
    else if str_eq req.image_id ""
    then stop (write_error 400 "missing_image_id" "image_id is required")
    else go req

created : Texts → Result Sandbox × Manager → Server → Handled HttpResponse × Server
created texts (failed e, m) s =
    (stop (write_error 500 "create_failed" (texts.of_manager e)), record s { manager = m })
created texts (done_with sb, m) s =
    (go (write_json 201 (created_body (create_sandbox_response sb))), record s { manager = m })

create_checked :
    EnvCodec
    → Texts
    → Answers
    → Time
    → String
    → Handled CreateSandboxRequest
    → Server
    → Handled HttpResponse × Server
create_checked codec texts answers now session_id (go req) s =
    created texts (create codec (spec_of session_id req) answers now s.manager) s
create_checked codec texts answers now session_id (stop r) s = (stop r, s)
create_checked codec texts answers now session_id panics s = (panics, s)

-- `SandboxHandler.Create`; `session_id` is the random identifier of `newSessionID`.
unfoldable pub create_sandbox_handler :
    EnvCodec
    → Texts
    → Answers
    → Time
    → String
    → Decoded CreateSandboxRequest
    → Server
    → Handled HttpResponse × Server
unfolding create_checked created
create_sandbox_handler codec texts answers now session_id body s =
    create_checked codec texts answers now session_id (checked_request body) s

with_id : String → Handled String
with_id id = if str_eq id "" then stop (write_error 400 "missing_id" "id is required") else go id

-- `SandboxHandler.Get`
unfoldable pub get_sandbox_handler :
    EnvCodec → Texts → Bool → String → Server → Handled HttpResponse
unfolding with_id
get_sandbox_handler codec texts fault id s = do
  named ← with_id id
  sb ← live_sandbox codec texts fault named s.manager
  go (write_json 200 (sandbox_body (get_sandbox_response sb)))

deleted_in : Texts → String → Result (Unit {0}) × Manager → Server → Handled HttpResponse × Server
deleted_in texts id (failed e, m) s =
    (stop (write_error 500 "delete_failed" (texts.of_manager e)), record s { manager = m })
deleted_in texts id (done_with _, m) s =
    (go no_content, record s { manager = m; registry = (delete_by_sandbox id s.registry).1 })

-- `SandboxHandler.Delete`
unfoldable pub delete_sandbox_handler :
    Texts → Bool → DeleteReply → String → Time → Server → Handled HttpResponse × Server
unfolding deleted_in
delete_sandbox_handler texts fault reply id now s =
    if str_eq id ""
    then (stop (write_error 400 "missing_id" "id is required"), s)
    else deleted_in texts id (delete_sandbox fault reply id now s.manager) s
