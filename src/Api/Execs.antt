-- ===== src/Api/Execs.antt =====
-- adapter/internal/api/exec.go: the handlers that look up an exec: `Get`, `GetOutput`, `List`, `Stdin`
-- and `Signal`. What the agent answers to a call is an argument, and so are a query that fails and the
-- texts of errors from outside.
pub mod Start
pub mod Outputs
pub mod Owners
pub mod Payload
use microvm_agentic_sandbox.Prelude.{
  ℕ, String, Bool, true, false, Option, none, some, List, [], ◌∷◌, map, str_eq, if◌then◌else◌, ℤ,
  pos, Bytes,
}
use microvm_agentic_sandbox.Exec.Chunk.{Status, is_running, status_string}
use microvm_agentic_sandbox.Exec.Record.{ExecRecord, output}
use microvm_agentic_sandbox.Exec.Load.{Snapshot, snapshot}
use microvm_agentic_sandbox.Exec.Table.{EnvCodec, join_command}
use microvm_agentic_sandbox.Exec.Registry.{
  Registry, RegistryError, exec_not_found, Reply, ok, err, Ref, held, loaded, get_exec,
}
use microvm_agentic_sandbox.Exec.Listing.{list_execs}
use microvm_agentic_sandbox.Sandbox.Table.{Sandbox}
use microvm_agentic_sandbox.Sandbox.Manager.{
  Manager, ManagerError, sandbox_not_found, Result, done_with, failed, get_sandbox,
}
use microvm_agentic_sandbox.Guest.{Code, ok_code, not_found_code}
use microvm_agentic_sandbox.Api.Signal.{SignalResult, SignalError, signo, bad, parse_signal}
use microvm_agentic_sandbox.Api.Base64.{decode_string}
use microvm_agentic_sandbox.Api.Types.{
  ExecStatus, ExecOutput, ExecListItem, StdinRequest, SignalRequest,
}
use microvm_agentic_sandbox.Api.Http.{
  HttpResponse, status_body, output_body, list_body, write_json, write_error, no_content, Texts,
  Decoded, body_of, malformed, Handled, go, stop, panics, ◌>>=◌,
}

-- `ExecHandler`
pub record Server : Type 0 where
  pub manager : Manager
  pub registry : Registry

-- What a lookup meets: queries that fail.
pub record Faults : Type 0 where
  pub manager_query : Bool
  pub registry_query : Bool

abbrev pub exec_missing : HttpResponse
exec_missing = write_error 404 "exec_not_found" "no exec with that id"

-- `r.PathValue("id")` through `h.Mgr.Get`
live : Texts → Result Sandbox → Handled Sandbox
live texts (done_with sb) = go sb
live texts (failed sandbox_not_found) =
    stop (write_error 404 "sandbox_not_found" "sandbox not found")
live texts (failed e) = stop (write_error 500 "get_failed" (texts.of_manager e))

unfoldable pub live_sandbox : EnvCodec → Texts → Bool → String → Manager → Handled Sandbox
unfolding live
live_sandbox codec texts fault id m = live texts (get_sandbox codec fault id m)

-- The record that a reference stands for now.
abbrev pub record_at : Registry → Ref → ExecRecord
record_at s (held p) = s.heap p
record_at s (loaded r) = r

check_owner : String → ExecRecord → Handled ExecRecord
check_owner sandbox_id r =
    if str_eq (snapshot r).sandbox_id sandbox_id then go r else stop exec_missing

found_exec : Texts → String → Registry → Reply Ref → Handled ExecRecord
found_exec texts sandbox_id s (ok ref) = check_owner sandbox_id (record_at s ref)
found_exec texts sandbox_id s (err exec_not_found) = stop exec_missing
found_exec texts sandbox_id s (err e) =
    stop (write_error 500 "exec_get_failed" (texts.of_registry e))

-- `h.Registry.Get`, and the test on the sandbox of the record.
unfoldable pub own_exec : EnvCodec → Texts → Bool → String → String → Registry → Handled ExecRecord
unfolding found_exec check_owner
own_exec codec texts fault sandbox_id exec_id s =
    found_exec texts sandbox_id s (get_exec codec fault exec_id s)

-- Nothing while the exec runs.
abbrev pub unless_running {ℓ} : {A : Type ℓ} → Status → A → Option A
unless_running status a = if is_running status then none else some a

unfoldable pub exec_status_from_snapshot : Snapshot → ExecStatus
exec_status_from_snapshot snap = record {
  exec_id = snap.id;
  sandbox_id = snap.sandbox_id;
  command = join_command snap.command;
  status = status_string snap.status;
  exit_code = unless_running snap.status snap.exit_code;
  started_at = snap.started_at;
  completed_at = unless_running snap.status snap.completed_at;
  output_bytes = snap.output_bytes;
  truncated = snap.truncated;
}

unfoldable pub exec_output : ExecRecord → ExecOutput
exec_output r =
    let snap = snapshot r in
    record {
      exec_id = snap.id;
      status = status_string snap.status;
      exit_code = unless_running snap.status snap.exit_code;
      out = (output r).0;
      err = (output r).1;
      truncated = snap.truncated;
    }

unfoldable pub list_item : ExecRecord → ExecListItem
list_item r =
    let snap = snapshot r in
    record {
      exec_id = snap.id;
      command = join_command snap.command;
      status = status_string snap.status;
      exit_code = unless_running snap.status snap.exit_code;
      started_at = snap.started_at;
    }

request {ℓ} : {A : Type ℓ} → Decoded A → Handled A
request (body_of req) = go req
request (malformed text) = stop (write_error 400 "invalid_body" text)

-- `decodeStdinPayload`
unfoldable pub decode_stdin_payload : Bytes → String → Option Bytes
decode_stdin_payload payload encoding =
    if str_eq encoding ""
    then some payload
    else if str_eq encoding "utf-8"
    then some payload
    else if str_eq encoding "base64"
    then decode_string payload
    else none

payload_or : Texts → StdinRequest → Option Bytes → Handled Bytes
payload_or texts req none =
    stop (write_error 400 "invalid_data" (texts.of_payload req.payload req.encoding))
payload_or texts req (some bytes) = go bytes

signal_or : Texts → SignalResult → Handled ℕ
signal_or texts (signo n) = go n
signal_or texts (bad e) = stop (write_error 400 "invalid_signal" (texts.of_signal e))

-- A call on a client that is nil dereferences a null pointer.
client : Option ℕ → Handled ℕ
client none = panics
client (some ac) = go ac

-- The answer to a call of the agent; `isGRPCNotFound` tells `not_found_code` apart.
unfoldable pub agent_answer : Texts → String → Code → HttpResponse
agent_answer texts failure ok_code = no_content
agent_answer texts failure not_found_code =
    write_error 404 "exec_not_running" "exec is not currently running on the agent"
agent_answer texts failure e = write_error 500 failure (texts.of_agent e)

module _ (codec : EnvCodec) (texts : Texts) (faults : Faults) (sandbox_id exec_id : String)
    (s : Server) where
  -- `ExecHandler.Get`
  unfoldable pub get_handler : Handled HttpResponse
  get_handler = do
    r ← own_exec codec texts faults.registry_query sandbox_id exec_id s.registry
    go (write_json 200 (status_body (exec_status_from_snapshot (snapshot r))))

  -- `ExecHandler.GetOutput`
  unfoldable pub get_output_handler : Handled HttpResponse
  get_output_handler = do
    r ← own_exec codec texts faults.registry_query sandbox_id exec_id s.registry
    go (write_json 200 (output_body (exec_output r)))

  -- The sandbox and the exec of a request that goes to the agent: the client of the sandbox.
  unfoldable pub own_client : Handled (Option ℕ)
  own_client = do
    sb ← live_sandbox codec texts faults.manager_query sandbox_id s.manager
    r ← own_exec codec texts faults.registry_query sandbox_id exec_id s.registry
    go sb.agent

  -- `ExecHandler.Stdin`; `stdin_write` is the call of the agent behind the client.
  unfoldable pub stdin_handler :
      (ℕ → String → Bytes → Bool → Code) → Decoded StdinRequest → Handled HttpResponse
  unfolding own_client request payload_or client agent_answer
  stdin_handler stdin_write body = do
    agent ← own_client
    req ← request body
    bytes ← payload_or texts req (decode_stdin_payload req.payload req.encoding)
    ac ← client agent
    go (agent_answer texts "stdin_failed" (stdin_write ac exec_id bytes req.eof))

  -- `ExecHandler.Signal`
  unfoldable pub signal_handler :
      (ℕ → String → ℕ → Code) → Decoded SignalRequest → Handled HttpResponse
  unfolding own_client request signal_or client agent_answer
  signal_handler send_signal body = do
    agent ← own_client
    req ← request body
    number ← signal_or texts (parse_signal texts.trim_space texts.to_upper req.signal)
    ac ← client agent
    go (agent_answer texts "signal_failed" (send_signal ac exec_id number))

listed : Texts → Reply (List ExecRecord) → Handled HttpResponse
listed texts (ok rs) = go (write_json 200 (list_body (map list_item rs)))
listed texts (err e) = stop (write_error 500 "exec_list_failed" (texts.of_registry e))

-- `ExecHandler.List`; `sort` is the call of `sort.Slice`.
unfoldable pub list_handler :
    EnvCodec
    → Texts
    → Faults
    → (List ExecRecord → List ExecRecord)
    → String
    → Server
    → Handled HttpResponse
unfolding listed
list_handler codec texts faults sort sandbox_id s = do
  sb ← live_sandbox codec texts faults.manager_query sandbox_id s.manager
  listed texts (list_execs codec sort faults.registry_query sandbox_id s.registry)
