-- ===== src/Tests/Agents.antt =====
-- The clients of the guest agent at concrete inputs: adapter/internal/agent/client.go and
-- agent-client/main.go with guest-agent/server.go.
use microvm_agentic_sandbox.Prelude.{◌≡◌, refl, true, false, some, List, [], ◌∷◌, ◌++◌, map, arith}
use microvm_agentic_sandbox.Prelude.Dict
use microvm_agentic_sandbox.Exec.Table.{
  scan_env, insert_row, register_row, or_empty_map, find_row, null_if_empty,
}
use microvm_agentic_sandbox.Exec.Record.{new_exec_record}
use microvm_agentic_sandbox.Exec.Registry.{ok, enter, register}
use microvm_agentic_sandbox.Sandbox.Table.{find_sandbox, scan_sandbox}
use microvm_agentic_sandbox.Sandbox.Manager.{get_sandbox, new_row}
use microvm_agentic_sandbox.Guest.{
  AgentServer, ok_code, Read, signalled, exit_code_of, last_frame, frame_of, pump, begin_exec,
  register_running,
}
use microvm_agentic_sandbox.Guest.Frames.{Merge, empty, left, right, read_bytes}
use microvm_agentic_sandbox.Api.Base64.{encode_to_string}
use microvm_agentic_sandbox.Api.Http.{HttpResponse, body_of, go, write_json, exec_body, output_body}
use microvm_agentic_sandbox.Api.Execs.{live_sandbox, get_output_handler, stdin_handler}
use microvm_agentic_sandbox.Api.Execs.Start.{
  create_checks, is_blank, placed, record_for, create_handler,
}
use microvm_agentic_sandbox.Api.Execs.Start.Foreground.{registration}
use microvm_agentic_sandbox.Agent.{client_stdin_write, next_frame, end_of_stream, stream}
use microvm_agentic_sandbox.Cli.{run_cli, exits}
use microvm_agentic_sandbox.Cli.Printing.{run_cli-prints}
use microvm_agentic_sandbox.Agent.Guests.{Child, guest_stub}
use microvm_agentic_sandbox.Agent.Running.{
  guest_exec, child_response, child_output, create_handler-Child,
}
use microvm_agentic_sandbox.Agent.Stdin.{IsPassedOn, stdin_handler-IsPassedOn}
use microvm_agentic_sandbox.Tests.Handlers.{
  json, texts, no_faults, moment, dialed, ls, ls_limit, serving, one_dialed,
}

abbrev outs : List Read
outs = record { bytes = 7 ∷ []; over = false } ∷ record { bytes = []; over = true } ∷ []

abbrev errs : List Read
errs = record { bytes = 9 ∷ []; over = true } ∷ []

abbrev child : Child
child = record {
  start = some 11;
  frames = frame_of true (9 ∷ []) ∷ frame_of false (7 ∷ []) ∷ [];
  how = signalled 15;
  writes = true;
  closes = true;
  takes_signal = true;
}

abbrev idle : AgentServer
idle = record { execs = []; effects = [] }

abbrev busy : AgentServer
busy = record { execs = ("e1", 11) ∷ []; effects = [] }

frames_merged : Merge (pump false outs) (pump true errs) child.frames
unfolding pump
frames_merged = right (frame_of true (9 ∷ [])) (left (frame_of false (7 ∷ [])) empty)

ls_passes :
    create_checks json texts no_faults moment "s1" "e1" (guest_exec child idle) (body_of ls) dialed
    ≡ go (some 4, ls)
unfolding create_checks live_sandbox get_sandbox new_row Dict.get scan_sandbox is_blank find_sandbox
    null_if_empty scan_env
ls_passes = refl

ls_taken :
    (registration json texts no_faults moment "s1" "e1" (guest_exec child idle) ls dialed).0 ≡ ok tt
unfolding register placed record_for new_exec_record Dict.get enter insert_row register_row
    or_empty_map find_row
ls_taken = refl

ls_begins : (begin_exec "e1" ("sh" ∷ "-c" ∷ ls.command ∷ []) child.start idle).0 ≡ ok_code
unfolding begin_exec register_running Dict.get
ls_begins = refl

create_handler-Child_example :
    ((create_handler json texts no_faults moment "s1" "e1"
        (guest_exec child idle)
        (body_of ls)
        dialed).0
      ≡ go (write_json 200 (exec_body (child_response "e1" child outs errs))))
    × (get_output_handler json texts no_faults "s1" "e1"
          (create_handler json texts no_faults moment "s1" "e1"
            (guest_exec child idle)
            (body_of ls)
            dialed).1
        ≡ go (write_json 200 (output_body (child_output "e1" child outs errs))))
create_handler-Child_example =
    create_handler-Child json texts no_faults moment "s1" "e1" child idle outs errs 2 (body_of ls)
      dialed 4 ls refl ls_passes ls_taken refl ls_limit ls_begins frames_merged (omega arith)

stdin_handler-IsPassedOn_example :
    (answer : HttpResponse) × (stdin_handler json texts no_faults "s1" "e1" serving
        (λ client id bytes last. (client_stdin_write (guest_stub child) id bytes last busy).0)
        (body_of
          (record { payload = encode_to_string (104 ∷ 105 ∷ []); encoding = "base64"; eof = true }))
      ≡ go answer)
    × IsPassedOn texts "e1"
        (104 ∷ 105 ∷ [])
        true
        child
        busy
        answer
        (client_stdin_write (guest_stub child) "e1" (104 ∷ 105 ∷ []) true busy).1
stdin_handler-IsPassedOn_example =
    stdin_handler-IsPassedOn json texts no_faults "s1" "e1" serving 4 (104 ∷ 105 ∷ []) true child
      busy one_dialed (omega arith, (omega arith, tt)) refl

-- "\n" alone
run_cli-prints_example :
    run_cli
      (λ code. 10 ∷ [])
      ("ls" ∷ [])
      true
      (stream
        (map next_frame (child.frames ++ last_frame (signalled 15) ∷ []) ++ end_of_stream ∷ []))
    ≡ exits
        (exit_code_of (signalled 15))
        (record { out = read_bytes outs; err = read_bytes errs ++ 10 ∷ [] })
run_cli-prints_example =
    run_cli-prints (λ code. 10 ∷ []) (signalled 15) "ls" [] outs errs child.frames frames_merged
