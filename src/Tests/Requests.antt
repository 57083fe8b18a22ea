-- ===== src/Tests/Requests.antt =====
-- Signals and drained streams: adapter/internal/api/exec.go at concrete inputs.
use microvm_agentic_sandbox.Prelude.{◌≡◌, refl, ◌≤◌, true, false, none, List, [], ◌∷◌, pos}
use microvm_agentic_sandbox.Exec.Chunk.{is_running}
use microvm_agentic_sandbox.Exec.Record.{ExecRecord, new_exec_record}
use microvm_agentic_sandbox.Exec.Registry.{Registry}
use microvm_agentic_sandbox.Api.Signal.{
  signo, codes, parse_signal, atoi, digits_value, named_signal,
}
use microvm_agentic_sandbox.Api.Signal.Laws.{parse_signal_range}
use microvm_agentic_sandbox.Api.Drain.{ExecChunk, drain_into_record}
use microvm_agentic_sandbox.Api.Drain.Laws.{ending, stream_ending, drain_into_record-ending}

term_read : parse_signal (λ s. s) (λ s. s) (codes "SIGTERM") ≡ signo 15
unfolding parse_signal atoi digits_value named_signal
term_read = refl

parse_signal_range_example : (1 ≤ 15) × (15 ≤ 64)
parse_signal_range_example = parse_signal_range (λ s. s) (λ s. s) (codes "SIGTERM") 15 term_read

abbrev running_exec : ExecRecord
running_exec = new_exec_record "e1" "s1" ("ls" ∷ []) none "" false (pos 5) 7

abbrev one_exec : Registry
one_exec = record { heap = λ p. running_exec; records = []; by_session = []; execs = [] }

abbrev frames : List ExecChunk
frames =
    record { out = 1 ∷ 2 ∷ []; err = []; is_last = false; exit_code = pos 0 }
    ∷ record { out = []; err = []; is_last = true; exit_code = pos 3 }
    ∷ []

exec_runs : is_running (ending (one_exec.heap 0)).status ≡ true
unfolding new_exec_record
exec_runs = refl

drain_into_record-ending_example :
    ending ((drain_into_record false 0 9 frames one_exec).heap 0) ≡ stream_ending frames
drain_into_record-ending_example = drain_into_record-ending false 0 9 frames one_exec exec_runs
