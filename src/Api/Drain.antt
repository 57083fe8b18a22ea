-- ===== src/Api/Drain.antt =====
-- adapter/internal/api/exec.go: `drainIntoRecord`, over the list of the chunks that the agent's
-- channel gives until it is closed (`ExecChunk` of adapter/internal/agent/client.go). `now` is the
-- clock at the end of the exec, `fault` says that the database does not take the final UPDATE.
pub mod Laws
pub mod Calls
pub mod Maps
use microvm_agentic_sandbox.Prelude.{
  ℕ, String, Bool, true, false, ltb, if◌then◌else◌, List, [], ◌∷◌, ℤ, negsuc, Bytes, Time, length,
}
use microvm_agentic_sandbox.Exec.Chunk.{ChunkKind, stdout, stderr}
use microvm_agentic_sandbox.Exec.Record.{append}
use microvm_agentic_sandbox.Exec.Registry.{Registry, write, complete_exec, fail_exec}

pub record ExecChunk : Type 0 where
  pub out : Bytes
  pub err : Bytes
  pub is_last : Bool
  pub exit_code : ℤ

-- `record.Append` through the pointer `p`
unfoldable pub append_exec : ℕ → ChunkKind → Bytes → Registry → Registry
append_exec p kind bytes s = record s { heap = write p (append kind bytes (s.heap p)) s.heap }

-- `if len(data) > 0 { record.Append(kind, data) }`
unfoldable pub append_some : ℕ → ChunkKind → Bytes → Registry → Registry
append_some p kind bytes s = if ltb 0 (length bytes) then append_exec p kind bytes s else s

module _ (fault : Bool) (p : ℕ) (now : Time) where
  complete_if : Bool → ℤ → Registry → Registry
  complete_if last code s = if last then complete_exec fault p code now s else s

  -- One round of the loop.
  unfoldable pub drain_one : ExecChunk → Registry → Registry
  unfolding complete_if
  drain_one c s =
      complete_if c.is_last c.exit_code (append_some p stderr c.err (append_some p stdout c.out s))

  -- The loop, with `gotDone`, and the test after it.
  unfoldable pub drain_from : Bool → List ExecChunk → Registry → Registry
  drain_from true [] s = s
  drain_from false [] s = fail_exec fault p (negsuc 0) "agent stream ended without Done frame" now s
  drain_from got_done (c ∷ cs) s =
      drain_from (if c.is_last then true else got_done) cs (drain_one c s)

  -- `drainIntoRecord`
  unfoldable pub drain_into_record : List ExecChunk → Registry → Registry
  unfolding drain_from
  drain_into_record chunks s = drain_from false chunks s
