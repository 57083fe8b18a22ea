-- ===== src/Agent/Running.antt =====
-- A foreground exec, from the client of the adapter through the agent's client to the child in the
-- sandbox and back: adapter/internal/api/exec.go, adapter/internal/agent/client.go and
-- guest-agent/server.go.
use microvm_agentic_sandbox.Prelude.{
  ℕ, ◌+◌, ◌≤◌, ◌≡◌, refl, ap, ◌∙◌, String, false, true, some, List, [], ◌∷◌, map, append-nil,
  length, arith, ltb, take, take_all, pos, str_eq,
}
use microvm_agentic_sandbox.Exec.Chunk.{ChunkKind, stdout, stderr, completed, status_string}
use microvm_agentic_sandbox.Exec.Record.{clamp_output}
use microvm_agentic_sandbox.Exec.Record.Output.{select}
use microvm_agentic_sandbox.Exec.Table.{EnvCodec}
use microvm_agentic_sandbox.Exec.Registry.{ok}
use microvm_agentic_sandbox.Guest.{
  AgentServer, ok_code, Read, pump, begin_exec, exit_code_of, last_frame,
}
use microvm_agentic_sandbox.Guest.Frames.{
  received, Merge, read_bytes, stream_ending-frames, Merge-NotLast, pump-NotLast,
}
use microvm_agentic_sandbox.Api.Drain.Calls.{said_by}
use microvm_agentic_sandbox.Api.Drain.Laws.{stream_ending}
use microvm_agentic_sandbox.Api.Types.{ExecRequest, ExecResponse, ExecOutput}
use microvm_agentic_sandbox.Api.Http.{Texts, Decoded, go, write_json, exec_body, output_body}
use microvm_agentic_sandbox.Api.Execs.{Server, Faults, get_output_handler}
use microvm_agentic_sandbox.Api.Execs.Start.{
  Moment, AgentRequest, Lifetime, StartReply, streams, max_output_of, create_checks, agent_request,
  lifetime, create_handler,
}
use microvm_agentic_sandbox.Api.Execs.Start.Foreground.{registration, create_handler_foreground}
use microvm_agentic_sandbox.Api.Execs.Start.Logged.{finished_body, finished_output}
use microvm_agentic_sandbox.Agent.{client_exec, start_reply}
use microvm_agentic_sandbox.Agent.Carried.{
  out_bytes, err_bytes, stdout-said, stderr-said, length-said, out_bytes-merged, err_bytes-merged,
  out_bytes-append, err_bytes-append,
}
use microvm_agentic_sandbox.Agent.Guests.{Child, all_frames, guest_stub, client_exec-frames}

-- `sb.Agent.Exec` of the handler, over the client of the guest agent; the timeout does not fire.
abbrev pub guest_exec : Child → AgentServer → ℕ → AgentRequest → Lifetime → StartReply
guest_exec os g ac req life = start_reply false (client_exec (guest_stub os) req g).0

-- What the child wrote and how it ended.
abbrev pub child_response : String → Child → List Read → List Read → ExecResponse
child_response exec_id os outs errs = record {
  exec_id = exec_id;
  exit_code = some (exit_code_of os.how);
  out = read_bytes outs;
  err = read_bytes errs;
  truncated = false;
}

abbrev pub child_output : String → Child → List Read → List Read → ExecOutput
child_output exec_id os outs errs = record {
  exec_id = exec_id;
  status = "completed";
  exit_code = some (exit_code_of os.how);
  out = read_bytes outs;
  err = read_bytes errs;
  truncated = false;
}

module _ (os : Child) (outs errs : List Read)
    (merged : Merge (pump false outs) (pump true errs) os.frames) (m : ℕ)
    (fits : length (read_bytes outs) + length (read_bytes errs) ≤ m) where
  carried_out : out_bytes (all_frames os) ≡ read_bytes outs
  unfolding last_frame
  carried_out =
      out_bytes-append os.frames (last_frame os.how ∷ [])
      ∙ append-nil (out_bytes os.frames)
      ∙ out_bytes-merged outs errs os.frames merged

  carried_err : err_bytes (all_frames os) ≡ read_bytes errs
  unfolding last_frame
  carried_err =
      err_bytes-append os.frames (last_frame os.how ∷ [])
      ∙ append-nil (err_bytes os.frames)
      ∙ err_bytes-merged outs errs os.frames merged

  all_said : length (said_by (map received (all_frames os))) ≤ m
  all_said =
      omega (arith, length-said (all_frames os), ap length carried_out, ap length carried_err, fits)

  ended :
      stream_ending (map received (all_frames os))
      ≡ record { status = completed; exit_code = exit_code_of os.how; reason = "" }
  ended =
      stream_ending-frames os.how os.frames
        (Merge-NotLast merged (pump-NotLast false outs) (pump-NotLast true errs))

  abbrev said : List (ChunkKind × ℕ)
  said = said_by (map received (all_frames os))

  seen_out : select stdout (take m said) ≡ read_bytes outs
  seen_out =
      ap (select stdout) (take_all m said all_said) ∙ stdout-said (all_frames os) ∙ carried_out

  seen_err : select stderr (take m said) ≡ read_bytes errs
  seen_err =
      ap (select stderr) (take_all m said all_said) ∙ stderr-said (all_frames os) ∙ carried_err

  seen_all : ltb m (length said) ≡ false
  seen_all = ground (arith, all_said)

  response-child :
      (exec_id : String)
      → finished_body exec_id m (map received (all_frames os)) ≡ child_response exec_id os outs errs
  response-child exec_id = rw (ended, seen_out, seen_err, seen_all) refl

  output-child :
      (exec_id : String)
      → finished_output exec_id m (map received (all_frames os)) ≡ child_output exec_id os outs errs
  unfolding status_string
  output-child exec_id = rw (ended, seen_out, seen_err, seen_all) refl

-- A foreground Create, whose tests pass and whose record is registered, over the client of a guest agent
-- that begins the exec, with limit m: whatever the two pumps of the guest agent read, in whatever order
-- their frames come, if it is at most m bytes, and however the child ends, Create answers 200 with the
-- bytes of the two pipes and the exit code of that end, and GetOutput after it 200 with the same and
-- the status completed.
pub create_handler-Child :
    (codec : EnvCodec) (texts : Texts) (faults : Faults) (moment : Moment)
    (sandbox_id exec_id : String) (os : Child) (g : AgentServer) (outs errs : List Read) (m : ℕ)
    (body : Decoded ExecRequest) (s : Server) (ac : ℕ) (req : ExecRequest)
    → str_eq exec_id "" ≡ false
    → create_checks codec texts faults moment sandbox_id exec_id (guest_exec os g) body s
      ≡ go (some ac, req)
    → (registration codec texts faults moment sandbox_id exec_id (guest_exec os g) req s).0 ≡ ok tt
    → req.background ≡ false
    → clamp_output (max_output_of req.max_output_bytes) ≡ pos m
    → (begin_exec exec_id ("sh" ∷ "-c" ∷ req.command ∷ []) os.start g).0 ≡ ok_code
    → Merge (pump false outs) (pump true errs) os.frames
    → length (read_bytes outs) + length (read_bytes errs) ≤ m
    → ((create_handler codec texts faults moment sandbox_id exec_id (guest_exec os g) body s).0
        ≡ go (write_json 200 (exec_body (child_response exec_id os outs errs))))
      × (get_output_handler codec texts faults sandbox_id exec_id
            (create_handler codec texts faults moment sandbox_id exec_id (guest_exec os g) body s).1
          ≡ go (write_json 200 (output_body (child_output exec_id os outs errs))))
create_handler-Child codec texts faults moment sandbox_id exec_id os g outs errs m body s ac req
      named checked registered foreground limit begun merged fits =
    let started : guest_exec os g ac
          (agent_request codec texts faults moment sandbox_id exec_id (guest_exec os g) req)
          (lifetime codec texts faults moment sandbox_id exec_id (guest_exec os g) req)
        ≡ streams (map received (all_frames os)) false =
      unfold agent_request start_reply in
      ap (start_reply false) (client_exec-frames os _ g named begun) in
    let (answered, read, over) =
      create_handler_foreground codec texts faults moment sandbox_id exec_id (guest_exec os g) body
        s ac req (map received (all_frames os)) false m checked registered started foreground
        limit in
    (
      answered
          ∙ ap (λ b. go (write_json 200 (exec_body b)))
              (response-child os outs errs merged m fits exec_id),
      read
          ∙ ap (λ b. go (write_json 200 (output_body b)))
              (output-child os outs errs merged m fits exec_id),
    )
