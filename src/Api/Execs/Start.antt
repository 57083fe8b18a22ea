-- ===== src/Api/Execs/Start.antt =====
-- adapter/internal/api/exec.go: `ExecHandler.Create`. What it starts in the background, the drain and
-- the writing of the initial stdin, are goroutines of their own: Api/Drain, and `write_initial_stdin`.
pub mod Logged
pub mod Foreground
pub mod NoAgent
pub mod Background
use Prim.Native.String
use microvm_agentic_sandbox.Prelude.{
  ℕ, zero, suc, ◌*◌, String, Bool, true, false, not, Option, none, some, List, [], ◌∷◌,
  if◌then◌else◌, str_eq, ℤ, pos, negsuc, Bytes, Time,
}
use microvm_agentic_sandbox.Exec.Record.{Env, ExecRecord, new_exec_record, output}
use microvm_agentic_sandbox.Exec.Load.{snapshot}
use microvm_agentic_sandbox.Exec.Table.{EnvCodec}
use microvm_agentic_sandbox.Exec.Registry.{Registry, Reply, ok, err, write, register, fail_exec}
use microvm_agentic_sandbox.Guest.{Code, ok_code, not_found_code}
use microvm_agentic_sandbox.Api.Signal.{codes}
use microvm_agentic_sandbox.Api.Drain.{ExecChunk, drain_into_record}
use microvm_agentic_sandbox.Api.Types.{ExecRequest, ExecResponse}
use microvm_agentic_sandbox.Api.Http.{
  HttpResponse, exec_body, write_json, write_error, Texts, Decoded, body_of, malformed, Handled, go,
  stop, panics, ◌>>=◌,
}
use microvm_agentic_sandbox.Api.Execs.{Server, Faults, live_sandbox}

-- `agent.ExecRequest`
pub record AgentRequest : Type 0 where
  pub exec_id : String
  pub cmd : List String
  pub env : Env
  pub workdir : String

-- The context of the exec: detached from the request, or with a timeout in seconds.
pub data Lifetime : Type 0 where
  detached : Lifetime
  bounded : ℤ → Lifetime

-- What `sb.Agent.Exec` gives: the chunks until the channel closes and whether the timeout fired by
-- then, or an error.
pub data StartReply : Type 0 where
  streams : List ExecChunk → Bool → StartReply
  not_started : Code → StartReply

-- What the outside adds to one `Create`: the place of the new record, the times of its start and end,
-- and whether the INSERT and the final UPDATE fail.
pub record Moment : Type 0 where
  pub place : ℕ
  pub started : Time
  pub ended : Time
  pub insert_fault : Bool
  pub persist_fault : Bool

-- 10 MiB where the request asks for nothing
abbrev pub max_output_of : ℤ → ℤ
max_output_of (pos zero) = pos (10 * 1024 * 1024)
max_output_of n = n

-- The same for the timeout: a minute.
abbrev pub seconds_of : ℤ → ℤ
seconds_of (pos zero) = pos 60
seconds_of n = n

-- `strings.TrimSpace(req.Command) == ""`
unfoldable pub is_blank : Texts → String → Bool
is_blank texts command = elim (texts.trim_space (codes command)) [ [] ↦ true | _ ∷ _ ↦ false ]

parsed : Decoded ExecRequest → Handled ExecRequest
parsed (body_of req) = go req
parsed (malformed text) =
    stop (write_error 400 "invalid_body" (String.◌++◌ "could not parse request body: " text))

with_command : Texts → ExecRequest → Handled ExecRequest
with_command texts req =
    if is_blank texts req.command
    then stop (write_error 400 "missing_command" "command is required")
    else go req

unfoldable pub exec_response : String → ExecRecord → ExecResponse
exec_response exec_id r = record {
  exec_id = exec_id;
  exit_code = some (snapshot r).exit_code;
  out = (output r).0;
  err = (output r).1;
  truncated = (snapshot r).truncated;
}

abbrev pub with_registry : Server → Registry → Server
with_registry s registry = record s { registry = registry }

module _ (codec : EnvCodec) (texts : Texts) (faults : Faults) (moment : Moment)
    (sandbox_id exec_id : String) (agent_exec : ℕ → AgentRequest → Lifetime → StartReply) where
  -- The client and the request, past the tests.
  unfoldable pub create_checks : Decoded ExecRequest → Server → Handled (Option ℕ × ExecRequest)
  unfolding parsed with_command
  create_checks body s = do
    sb ← live_sandbox codec texts faults.manager_query sandbox_id s.manager
    req ← parsed body
    named ← with_command texts req
    go (sb.agent, named)

  unfoldable pub record_for : ExecRequest → ExecRecord
  record_for req =
      new_exec_record exec_id sandbox_id (req.command ∷ []) req.environment req.cwd req.background
        (max_output_of req.max_output_bytes) moment.started

  -- The registry with the new record at its place.
  unfoldable pub placed : ExecRequest → Registry → Registry
  placed req registry = record registry { heap = write moment.place (record_for req) registry.heap }

  unfoldable pub agent_request : ExecRequest → AgentRequest
  agent_request req = record {
    exec_id = exec_id;
    cmd = "sh" ∷ "-c" ∷ req.command ∷ [];
    env = req.environment;
    workdir = req.cwd;
  }

  abbrev pub lifetime : ExecRequest → Lifetime
  lifetime req = if req.background then detached else bounded (seconds_of req.timeout_seconds)

  -- The foreground: the drain, and the answer from the record.
  drained : List ExecChunk → Bool → Server → Handled HttpResponse × Server
  drained chunks timed_out s =
      let registry =
        drain_into_record moment.persist_fault moment.place moment.ended chunks s.registry in
      (
        go (
            write_json (if timed_out then 408 else 200)
              (exec_body (exec_response exec_id (registry.heap moment.place)))),
        with_registry s registry,
      )

  accepted : Server → Handled HttpResponse × Server
  accepted s = (
    go (
        write_json 202 (
          exec_body (record {
            exec_id = exec_id;
            exit_code = none;
            out = [];
            err = [];
            truncated = false;
          }))),
    s,
  )

  on_start : ExecRequest → StartReply → Server → Handled HttpResponse × Server
  on_start req (not_started e) s = (
    stop (write_error 500 "exec_start_failed" (texts.of_agent e)),
    with_registry s (
        fail_exec moment.persist_fault moment.place (negsuc 0)
          (String.◌++◌ "agent exec start: " (texts.of_agent e)) moment.ended s.registry),
  )
  on_start req (streams chunks timed_out) s =
      if req.background then accepted s else drained chunks timed_out s

  on_client : ExecRequest → Option ℕ → Server → Handled HttpResponse × Server
  on_client req none s = (panics, s)
  on_client req (some ac) s = on_start req (agent_exec ac (agent_request req) (lifetime req)) s

  on_register :
      ExecRequest → Option ℕ → Reply (Unit {0}) × Registry → Server → Handled HttpResponse × Server
  on_register req agent (err e, registry) s =
      (stop (write_error 500 "register_failed" (texts.of_registry e)), with_registry s registry)
  on_register req agent (ok _, registry) s = on_client req agent (with_registry s registry)

  on_checks : Handled (Option ℕ × ExecRequest) → Server → Handled HttpResponse × Server
  on_checks (stop r) s = (stop r, s)
  on_checks panics s = (panics, s)
  on_checks (go (agent, req)) s =
      on_register req agent
        (register codec moment.insert_fault moment.place (placed req s.registry)) s

  -- `ExecHandler.Create`
  unfoldable pub create_handler : Decoded ExecRequest → Server → Handled HttpResponse × Server
  unfolding on_checks on_register on_client on_start accepted drained
  create_handler body s = on_checks (create_checks body s) s

-- `writeInitialStdin`, over what the agent answers to each attempt before the deadline and the end of
-- the context: how many attempts it makes, and whether one succeeds.
unfoldable pub write_initial_stdin : List Code → ℕ × Bool
write_initial_stdin [] = (0, false)
write_initial_stdin (ok_code ∷ replies) = (1, true)
write_initial_stdin (not_found_code ∷ replies) =
    let (tries, taken) = write_initial_stdin replies in (suc tries, taken)
write_initial_stdin (_ ∷ replies) = (1, false)
