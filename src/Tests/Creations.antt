-- ===== src/Tests/Creations.antt =====
-- The handlers of sandboxes at concrete inputs: adapter/internal/api/sandboxes.go.
use microvm_agentic_sandbox.Prelude.{◌≡◌, refl, some, none, [], pos}
use microvm_agentic_sandbox.Exec.Table.{or_empty_map, null_if_empty}
use microvm_agentic_sandbox.Sandbox.Table.{insert_sandbox, find_sandbox}
use microvm_agentic_sandbox.Sandbox.Manager.{
  wait_for_pod_ready, ping_agent, create, new_row, new_sandbox,
}
use microvm_agentic_sandbox.Api.Types.{CreateSandboxRequest, CreateSandboxResponse}
use microvm_agentic_sandbox.Api.Http.{created_body, write_json, body_of, go}
use microvm_agentic_sandbox.Api.Execs.{Server}
use microvm_agentic_sandbox.Api.Sandboxes.{
  create_sandbox_handler, checked_request, spec_of, create_sandbox_response,
}
use microvm_agentic_sandbox.Api.Sandboxes.Creation.{IsServed, create_handler-get}
use microvm_agentic_sandbox.Tests.Handlers.{texts, no_execs}
use microvm_agentic_sandbox.Tests.Sandboxes.{
  empty_json, empty_json-IsFaithful, healthy, empty_manager,
}

abbrev fresh : Server
fresh = record { manager = empty_manager; registry = no_execs }

abbrev asked : CreateSandboxRequest
asked = record {
  flavor = "small";
  image_id = "agent:1";
  tenant_id = "t1";
  tags = none;
  max_session_seconds = pos 60;
  idle_timeout_seconds = pos 0;
  idle_action = "";
  environment = some [];
  network_egress = "";
  egress_allowlist = [];
  setup = none;
  callback_url = "";
}

abbrev told : CreateSandboxResponse
told = record {
  session_id = "sb-1";
  status = "running";
  deadline = pos 60000001000;
  session_event_stream = "/api/v1/sandboxes/sb-1/events";
}

asked_created :
    (create_sandbox_handler empty_json texts healthy 1000 "sb-1" (body_of asked) fresh).0
    ≡ go (write_json 201 (created_body told))
unfolding create_sandbox_handler checked_request spec_of create_sandbox_response create
    wait_for_pod_ready ping_agent or_empty_map insert_sandbox new_row new_sandbox find_sandbox
    null_if_empty
asked_created = refl

create_handler-get_example :
    (req : CreateSandboxRequest) × (body_of asked ≡ body_of req)
    × IsServed empty_json texts 1000 "sb-1" req told
        (create_sandbox_handler empty_json texts healthy 1000 "sb-1" (body_of asked) fresh).1
create_handler-get_example =
    create_handler-get empty_json empty_json-IsFaithful texts healthy 1000 "sb-1" refl
      (body_of asked) told fresh asked_created
