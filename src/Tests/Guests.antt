-- ===== src/Tests/Guests.antt =====
-- The guest agent: guest-agent/server.go at concrete inputs.
use microvm_agentic_sandbox.Prelude.{
  ℕ, ◌≡◌, refl, true, false, none, some, List, [], ◌∷◌, ◌++◌, map, pos,
}
use microvm_agentic_sandbox.Prelude.Dict
use microvm_agentic_sandbox.Exec.Chunk.{completed, is_running}
use microvm_agentic_sandbox.Exec.Record.{ExecRecord, new_exec_record}
use microvm_agentic_sandbox.Exec.Registry.{Registry}
use microvm_agentic_sandbox.Api.Drain.{drain_into_record}
use microvm_agentic_sandbox.Api.Drain.Laws.{ending}
use microvm_agentic_sandbox.Guest.{
  AgentServer, ok_code, begin_exec, register_running, signalled, exit_code_of, Response, Read,
  frame_of, pump, last_frame, end_exec,
}
use microvm_agentic_sandbox.Guest.Frames.{received, Merge, empty, left, right, guest_ending}
use microvm_agentic_sandbox.Guest.Running.{IsBegun, IsEnded, exec_lifetime}

abbrev guest_exec : ExecRecord
guest_exec = new_exec_record "e1" "s1" ("ls" ∷ []) none "" false (pos 5) 7

abbrev guest_registry : Registry
guest_registry = record { heap = λ p. guest_exec; records = []; by_session = []; execs = [] }

abbrev stdout_reads : List Read
stdout_reads = record { bytes = 1 ∷ 2 ∷ []; over = false } ∷ record { bytes = []; over = true } ∷ []

abbrev stderr_reads : List Read
stderr_reads = record { bytes = 3 ∷ []; over = true } ∷ []

abbrev sent : List Response
sent = frame_of true (3 ∷ []) ∷ frame_of false (1 ∷ 2 ∷ []) ∷ []

interleaved : Merge (pump false stdout_reads) (pump true stderr_reads) sent
unfolding pump
interleaved = right (frame_of true (3 ∷ [])) (left (frame_of false (1 ∷ 2 ∷ [])) empty)

guest_runs : is_running (ending (guest_registry.heap 0)).status ≡ true
unfolding new_exec_record
guest_runs = refl

guest_ending_example :
    ending (
      (drain_into_record false 0 9
          (map received (sent ++ last_frame (signalled 15) ∷ []))
          guest_registry).heap
        0)
    ≡ record { status = completed; exit_code = exit_code_of (signalled 15); reason = "" }
guest_ending_example =
    guest_ending false 0 9 guest_registry (signalled 15) stdout_reads stderr_reads sent interleaved
      guest_runs

abbrev idle_server : AgentServer
idle_server = record { execs = []; effects = [] }

abbrev busy_server : AgentServer
busy_server = record { execs = ("e1", 4) ∷ []; effects = [] }

begins : (begin_exec "e1" ("ls" ∷ []) (some 4) idle_server).0 ≡ ok_code
unfolding begin_exec register_running Dict.get
begins = refl

exec_lifetime_example :
    ((child : ℕ) × (some 4 ≡ some child)
      × IsBegun "e1" child idle_server (begin_exec "e1" ("ls" ∷ []) (some 4) idle_server).1)
    × IsEnded "e1" idle_server
        (end_exec "e1" (signalled 9) (begin_exec "e1" ("ls" ∷ []) (some 4) idle_server).1).1
exec_lifetime_example = exec_lifetime "e1" ("ls" ∷ []) (some 4) (signalled 9) idle_server begins
