-- ===== src/Tests/Streams.antt =====
-- The event stream of adapter/internal/api/exec.go at concrete inputs.
use microvm_agentic_sandbox.Prelude.{
  ◌≡◌, All, refl, true, false, none, List, [], ◌∷◌, map, pos, arith, ℕ, Bool, length,
}
use microvm_agentic_sandbox.Prelude.Dict
use microvm_agentic_sandbox.Exec.Chunk.{stdout, completed, is_running}
use microvm_agentic_sandbox.Exec.Record.{
  output, ExecRecord, clamp_output, new_exec_record, append_locked, append_within, capture,
  finish_locked,
}
use microvm_agentic_sandbox.Exec.Record.Invariant.{
  IsValid, new_exec_record-IsValid, append_locked-IsValid, finish_locked-IsValid,
}
use microvm_agentic_sandbox.Exec.Load.{snapshot}
use microvm_agentic_sandbox.Exec.Registry.{get_exec}
use microvm_agentic_sandbox.Api.Http.{go}
use microvm_agentic_sandbox.Api.Execs.{Server, own_exec}
use microvm_agentic_sandbox.Api.Stream.{sse_event}
use microvm_agentic_sandbox.Api.Stream.Chunks.{through_done}
use microvm_agentic_sandbox.Api.Stream.Rejoin.{follow, has_ended, rejoining_delivers}
use microvm_agentic_sandbox.Api.Stream.Told.{IsPlain, told, rejoining_output}
use microvm_agentic_sandbox.Tests.Handlers.{json, texts, no_faults}

-- an exec that wrote two bytes and ended
abbrev fresh : ExecRecord
fresh = new_exec_record "e1" "s1" ("ls" ∷ []) none "" false (pos 5) 7

abbrev pub ended : ExecRecord
ended = finish_locked completed (pos 3) "" 9 (append_locked stdout (1 ∷ 2 ∷ []) fresh)

abbrev serving : Server
serving = record {
  manager = record { sandboxes = []; agents = []; effects = [] };
  registry = record { heap = λ p. ended; records = ("e1", 0) ∷ []; by_session = []; execs = [] };
}

five : clamp_output (pos 5) ≡ pos 5
unfolding clamp_output
five = refl

ended-IsValid : IsValid 5 ended
ended-IsValid =
    finish_locked-IsValid 5 (append_locked stdout (1 ∷ 2 ∷ []) fresh)
      (append_locked-IsValid 5 fresh
        (new_exec_record-IsValid "e1" "s1" ("ls" ∷ []) none "" false (pos 5) 7 5 five) stdout
        (1 ∷ 2 ∷ []) refl)
      completed (pos 3) "" 9 refl

ended_found : own_exec json texts false "s1" "e1" serving.registry ≡ go ended
unfolding own_exec get_exec Dict.get snapshot finish_locked append_locked append_within capture
    new_exec_record clamp_output
ended_found = refl

pub ended_over : is_running ended.status ≡ false
unfolding finish_locked append_locked append_within capture new_exec_record clamp_output
ended_over = refl

two_chunks : length ended.chunks ≡ 2
unfolding finish_locked append_locked append_within capture new_exec_record clamp_output
two_chunks = refl

abbrev ticks : ℕ → List Bool
ticks n = true ∷ false ∷ true ∷ []

rejoining_delivers_example :
    (follow json texts no_faults "s1" "e1" serving ticks 1 []
      ≡ map sse_event (through_done ended.chunks))
    × (has_ended (follow json texts no_faults "s1" "e1" serving ticks 1 []) ≡ true)
rejoining_delivers_example =
    rejoining_delivers json texts no_faults "s1" "e1" serving ticks 5 ended ended-IsValid
      ended_found (omega (arith, two_chunks)) 1 ended_over (omega (arith, two_chunks))

none_later : through_done ended.chunks ≡ ended.chunks
unfolding finish_locked append_locked append_within capture new_exec_record clamp_output
none_later = refl

ended-IsPlain : All IsPlain ended.chunks
unfolding finish_locked append_locked append_within capture new_exec_record clamp_output
ended-IsPlain = ((omega arith, (omega arith, tt)), (tt, tt))

rejoining_output_example : output ended ≡ (
  told "stdout" (follow json texts no_faults "s1" "e1" serving ticks 1 []),
  told "stderr" (follow json texts no_faults "s1" "e1" serving ticks 1 []),
)
rejoining_output_example =
    rejoining_output json texts no_faults "s1" "e1" serving ticks 5 ended 1 ended-IsValid
      ended_found (omega (arith, two_chunks)) ended_over (omega (arith, two_chunks)) none_later
      ended-IsPlain
