-- ===== src/Tests/Handlers.antt =====
-- The handlers of adapter/internal/api/exec.go and adapter/internal/api/sandboxes.go at concrete inputs.
use microvm_agentic_sandbox.Prelude.{
  ◌≡◌, refl, Bool, true, false, none, some, List, [], ◌∷◌, pos, str_eq, ℕ, String, Bytes,
}
use microvm_agentic_sandbox.Prelude.Dict
use microvm_agentic_sandbox.Exec.Chunk.{is_running}
use microvm_agentic_sandbox.Exec.Record.{clamp_output, new_exec_record, ExecRecord}
use microvm_agentic_sandbox.Exec.Table.{
  EnvCodec, insert_row, register_row, or_empty_map, null_if_empty, find_row, scan_env,
}
use microvm_agentic_sandbox.Exec.Load.{snapshot}
use microvm_agentic_sandbox.Exec.Registry.{
  Registry, ok, err, exec_not_found, held, enter, register, get_exec, query_by_id,
}
use microvm_agentic_sandbox.Exec.Registry.Index.{empty-IsIndexed, IsIndexed}
use microvm_agentic_sandbox.Sandbox.Table.{
  CreateSpec, SandboxRow, find_sandbox, scan_sandbox, rows_affected,
}
use microvm_agentic_sandbox.Sandbox.Manager.{pod_went, delete_sandbox, get_sandbox, new_row}
use microvm_agentic_sandbox.Guest.{Code, ok_code}
use microvm_agentic_sandbox.Api.Drain.{ExecChunk}
use microvm_agentic_sandbox.Api.Drain.Laws.{stream_ending}
use microvm_agentic_sandbox.Api.Base64.{encode_to_string}
use microvm_agentic_sandbox.Api.Types.{ExecRequest, StdinRequest}
use microvm_agentic_sandbox.Api.Http.{
  Texts, body_of, malformed, go, write_json, write_error, exec_body, output_body, answer,
  no_content,
}
use microvm_agentic_sandbox.Api.Execs.{
  Server, Faults, live_sandbox, record_at, own_exec, own_client, get_handler, get_output_handler,
  stdin_handler, signal_handler,
}
use microvm_agentic_sandbox.Api.Execs.Owners.{foreign_exec_hidden}
use microvm_agentic_sandbox.Api.Execs.Start.{
  AgentRequest, Lifetime, StartReply, streams, Moment, create_checks, is_blank, placed, record_for,
  create_handler,
}
use microvm_agentic_sandbox.Api.Execs.Start.Foreground.{registration, create_handler_foreground}
use microvm_agentic_sandbox.Api.Execs.Start.Logged.{finished_body, finished_output}
use microvm_agentic_sandbox.Api.Execs.Start.NoAgent.{create_handler_no_agent}
use microvm_agentic_sandbox.Api.Sandboxes.{delete_sandbox_handler}
use microvm_agentic_sandbox.Api.Sandboxes.Deletion.{IsGone, delete_handler-IsGone}

abbrev pub json : EnvCodec
json = record { marshal = λ m. some "{}"; unmarshal = λ s. some (some []) }

abbrev pub texts : Texts
texts = record {
  of_manager = λ e. "manager";
  of_registry = λ e. "registry";
  of_agent = λ e. "agent";
  of_signal = λ e. "signal";
  of_payload = λ bytes encoding. "payload";
  trim_space = λ s. s;
  to_upper = λ s. s;
}

abbrev pub no_faults : Faults
no_faults = record { manager_query = false; registry_query = false }

abbrev pub moment : Moment
moment = record { place = 0; started = 10; ended = 20; insert_fault = false; persist_fault = false }

abbrev wanted : CreateSpec
wanted = record {
  id = "s1";
  image = "agent:1";
  flavor = "";
  tenant_id = "";
  tags = none;
  environment = none;
  network_egress = "";
  max_session_seconds = pos 0;
  idle_timeout_seconds = pos 0;
  idle_action = "";
  callback_url = "";
}

abbrev row : SandboxRow
row =
    new_row wanted (record { name = "sandbox-s1"; namespace = "default" }) "10.0.0.7" "{}" "{}" 1000

abbrev pub exec_two : ExecRecord
exec_two = new_exec_record "e2" "s2" ("ls" ∷ []) none "" false (pos 5) 7

abbrev pub no_execs : Registry
no_execs = record { heap = λ p. exec_two; records = []; by_session = []; execs = [] }

-- A sandbox that runs, with or without a client of its agent.
abbrev pub dialed : Server
dialed = record {
  manager = record { sandboxes = row ∷ []; agents = ("s1", 4) ∷ []; effects = [] };
  registry = no_execs;
}

abbrev undialed : Server
undialed = record {
  manager = record { sandboxes = row ∷ []; agents = []; effects = [] };
  registry = no_execs;
}

abbrev pub ls : ExecRequest
ls = record {
  command = "ls";
  cwd = "";
  environment = none;
  stdin = "";
  background = false;
  timeout_seconds = pos 0;
  max_output_bytes = pos 2;
  stream_output = false;
}

abbrev pub frames : List ExecChunk
frames =
    record { out = 1 ∷ 2 ∷ []; err = 3 ∷ []; is_last = false; exit_code = pos 0 }
    ∷ record { out = []; err = []; is_last = true; exit_code = pos 3 }
    ∷ []

abbrev pub agent : ℕ → AgentRequest → Lifetime → StartReply
agent ac req lifetime = streams frames false

ls_checked :
    create_checks json texts no_faults moment "s1" "e1" agent (body_of ls) dialed ≡ go (some 4, ls)
unfolding create_checks live_sandbox get_sandbox new_row Dict.get scan_sandbox is_blank find_sandbox
    null_if_empty scan_env
ls_checked = refl

ls_registered : (registration json texts no_faults moment "s1" "e1" agent ls dialed).0 ≡ ok tt
unfolding register placed record_for new_exec_record Dict.get enter insert_row register_row
    or_empty_map find_row
ls_registered = refl

pub ls_limit : clamp_output (pos 2) ≡ pos 2
unfolding clamp_output
ls_limit = refl

create_handler_foreground_example :
    ((create_handler json texts no_faults moment "s1" "e1" agent (body_of ls) dialed).0
      ≡ go (write_json 200 (exec_body (finished_body "e1" 2 frames))))
    × (get_output_handler json texts no_faults "s1" "e1"
          (create_handler json texts no_faults moment "s1" "e1" agent (body_of ls) dialed).1
        ≡ go (write_json 200 (output_body (finished_output "e1" 2 frames))))
    × (is_running (stream_ending frames).status ≡ false)
create_handler_foreground_example =
    create_handler_foreground json texts no_faults moment "s1" "e1" agent (body_of ls) dialed 4 ls
      frames false 2 ls_checked ls_registered refl refl ls_limit

ls_without_agent :
    create_checks json texts no_faults moment "s1" "e1" agent (body_of ls) undialed ≡ go (none, ls)
unfolding create_checks live_sandbox get_sandbox new_row Dict.get scan_sandbox is_blank find_sandbox
    null_if_empty scan_env
ls_without_agent = refl

ls_entered : (registration json texts no_faults moment "s1" "e1" agent ls undialed).0 ≡ ok tt
unfolding register placed record_for new_exec_record Dict.get enter insert_row register_row
    or_empty_map find_row
ls_entered = refl

create_handler_no_agent_example :
    (answer (create_handler json texts no_faults moment "s1" "e1" agent (body_of ls) undialed).0
      ≡ write_error 500 "internal_error" "internal server error")
    × (get_exec json true "e1"
          (create_handler json texts no_faults moment "s1" "e1" agent
            (body_of ls)
            undialed).1.registry
        ≡ ok (held 0))
    × (is_running
          ((create_handler json texts no_faults moment "s1" "e1" agent
              (body_of ls)
              undialed).1.registry.heap
            0).status
        ≡ true)
create_handler_no_agent_example =
    create_handler_no_agent json texts no_faults moment "s1" "e1" agent (body_of ls) undialed ls
      true ls_without_agent ls_entered

-- An exec of the sandbox s2 in memory.
abbrev shared : Server
shared = record dialed { registry = record no_execs { records = ("e2", 0) ∷ [] } }

abbrev write_taken : ℕ → String → Bytes → Bool → Code
write_taken ac exec_id bytes eof = ok_code

abbrev signal_taken : ℕ → String → ℕ → Code
signal_taken ac exec_id number = ok_code

abbrev hello : StdinRequest
hello = record { payload = encode_to_string (104 ∷ 105 ∷ []); encoding = "base64"; eof = true }

two_found : get_exec json false "e2" shared.registry ≡ ok (held 0)
unfolding get_exec Dict.get
two_found = refl

two_foreign : str_eq (record_at shared.registry (held 0)).sandbox_id "s1" ≡ false
unfolding new_exec_record
two_foreign = refl

two_absent : get_exec json false "e2" no_execs ≡ err exec_not_found
unfolding get_exec Dict.get find_row query_by_id
two_absent = refl

foreign_exec_hidden_example :
    (get_handler json texts no_faults "s1" "e2" shared
      ≡ get_handler json texts no_faults "s1" "e2" dialed)
    × (get_output_handler json texts no_faults "s1" "e2" shared
        ≡ get_output_handler json texts no_faults "s1" "e2" dialed)
    × (stdin_handler json texts no_faults "s1" "e2" shared write_taken (body_of hello)
        ≡ stdin_handler json texts no_faults "s1" "e2" dialed write_taken (body_of hello))
    × (signal_handler json texts no_faults "s1" "e2" shared signal_taken (malformed "")
        ≡ signal_handler json texts no_faults "s1" "e2" dialed signal_taken (malformed ""))
foreign_exec_hidden_example =
    foreign_exec_hidden json texts no_faults "s1" "e2" shared no_execs (held 0) write_taken
      (body_of hello) signal_taken (malformed "") two_found two_foreign two_absent

abbrev exec_one : ExecRecord
exec_one = new_exec_record "e1" "s1" ("cat" ∷ []) none "" true (pos 5) 7

abbrev pub serving : Server
serving = record dialed {
  registry = record no_execs { heap = λ p. exec_one; records = ("e1", 0) ∷ [] };
}

pub one_dialed : own_client json texts no_faults "s1" "e1" serving ≡ go (some 4)
unfolding own_client own_exec get_exec live_sandbox get_sandbox new_row Dict.get scan_sandbox
    find_sandbox null_if_empty scan_env snapshot new_exec_record
one_dialed = refl

pub no_execs-IsIndexed : IsIndexed no_execs
no_execs-IsIndexed = empty-IsIndexed no_execs.heap []

deleted : (delete_sandbox_handler texts false pod_went "s1" 2000 dialed).0 ≡ go no_content
unfolding delete_sandbox_handler delete_sandbox rows_affected new_row
deleted = refl

delete_handler-IsGone_example :
    IsGone json "s1" (delete_sandbox_handler texts false pod_went "s1" 2000 dialed).1
delete_handler-IsGone_example =
    delete_handler-IsGone json texts pod_went "s1" 2000 dialed no_execs-IsIndexed refl deleted
