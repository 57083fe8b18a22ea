-- ===== src/Tests/Startups.antt =====
-- The start of the adapter at a concrete input: adapter/main.go.
use microvm_agentic_sandbox.Prelude.{◌≡◌, refl, String, true, false, some, none, List, [], ◌∷◌}
use microvm_agentic_sandbox.Exec.Table.{
  ExecRow, orphan, find_row, scan_env, update_rows, reconcile, register_row,
}
use microvm_agentic_sandbox.Exec.Record.{new_exec_record}
use microvm_agentic_sandbox.Sandbox.Manager.{new_row}
use microvm_agentic_sandbox.Sandbox.Manager.Reconcile.{recheck, check_all, running_ids, mark_ended}
use microvm_agentic_sandbox.Sandbox.Table.{SandboxRow, end_row, end_rows}
use microvm_agentic_sandbox.Api.Http.{output_body, write_json, go}
use microvm_agentic_sandbox.Api.Execs.{Server, get_output_handler}
use microvm_agentic_sandbox.Cluster.{get_sandbox_pod}
use microvm_agentic_sandbox.Cluster.Replies.{seen_pod}
use microvm_agentic_sandbox.Cluster.Connection.{KubeConfigs, new_client}
use microvm_agentic_sandbox.Database.{PoolApi, new_db, migrate, with_defaults}
use microvm_agentic_sandbox.Startup.{
  Adapter, run_main, signalled, returns, Flags, Environment, World, Outside, up, start,
  default_db_url, new_manager, new_registry,
}
use microvm_agentic_sandbox.Startup.Ready.{IsReady, start-IsReady}
use microvm_agentic_sandbox.Startup.Shutdown.{IsReleased, run_main-IsReleased}
use microvm_agentic_sandbox.Startup.Output.{told, start-GetOutput}
use microvm_agentic_sandbox.Tests.Clusters.{memory_api}
use microvm_agentic_sandbox.Tests.Sandboxes.{json, old_row}
use microvm_agentic_sandbox.Tests.Handlers.{texts, no_faults, exec_two, no_execs}

abbrev pools : PoolApi
pools = record {
  parse_config = λ url. some (record {
    settings = url;
    max_conns = 4;
    min_conns = 0;
    max_conn_idle_time = 1800;
    health_check_period = 60;
  });
  new_with_config = λ cfg. some 1;
  ping = λ pool. true;
}

abbrev kube : KubeConfigs
kube = record {
  Config = String;
  in_cluster = none;
  build_from = λ path. some path;
  for_config = λ cfg. some memory_api;
}

abbrev world : World
world = record {
  pools = pools;
  tx = record { begun = true; applied = true; committed = true };
  kube = kube;
  moved = λ c id k. k;
  agent_answers = λ id. record { mark_fault = false; dial = none; pinged = false };
  manager_fault = false;
  checked_at = 5000;
  registry_fault = false;
  closed_at = 6000;
  heap = no_execs.heap;
}

abbrev flags : Flags
flags = record { addr = none; namespace = none; db_url = none }

abbrev env : Environment
env = record { database_url = ""; kubeconfig = "" }

-- an exec that was left running
abbrev left_row : ExecRow
left_row = register_row "{}" exec_two

abbrev before : Outside
before = record {
  database = record { has_schema = true; sandboxes = old_row ∷ []; execs = left_row ∷ [] };
  opened = record { opened = []; closed = [] };
}

abbrev sandboxes_then : List SandboxRow
sandboxes_then = end_row "host_failed" 5000 old_row ∷ []

abbrev execs_then : List ExecRow
execs_then = orphan 6000 left_row ∷ []

abbrev server : Server
server = record {
  manager = new_manager sandboxes_then;
  registry = new_registry no_execs.heap execs_then;
}

abbrev adapter : Adapter
adapter = record { pool = 1; server = server }

abbrev then : Outside
then = record {
  database = record { has_schema = true; sandboxes = sandboxes_then; execs = execs_then };
  opened = record { opened = 1 ∷ []; closed = [] };
}

world_started : start world flags env before ≡ (up adapter, then)
unfolding start new_db migrate new_client default_db_url with_defaults recheck check_all running_ids
    mark_ended end_rows new_row reconcile update_rows register_row get_sandbox_pod seen_pod
world_started = refl

start-IsReady_example : IsReady world flags env before then adapter
start-IsReady_example = start-IsReady world flags env before then adapter world_started

left_found : find_row "e2" before.database.execs ≡ some left_row
unfolding find_row register_row new_exec_record
left_found = refl

left_scanned : scan_env json left_row.environment ≡ some (some [])
unfolding scan_env register_row
left_scanned = refl

start-GetOutput_example :
    get_output_handler json texts no_faults left_row.sandbox_id "e2" adapter.server
    ≡ go (write_json 200 (output_body (told left_row)))
start-GetOutput_example =
    start-GetOutput world flags env before then adapter json texts no_faults "e2" left_row (some [])
      world_started refl left_found left_scanned

main_returns : (run_main world flags env signalled before).0 ≡ returns
unfolding run_main start new_db migrate new_client default_db_url with_defaults recheck check_all
    running_ids mark_ended end_rows new_row reconcile update_rows register_row get_sandbox_pod
    seen_pod
main_returns = refl

run_main-IsReleased_example :
    IsReleased world before.opened (run_main world flags env signalled before).1
run_main-IsReleased_example = run_main-IsReleased world flags env before signalled main_returns
