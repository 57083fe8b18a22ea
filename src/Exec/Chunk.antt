-- ===== src/Exec/Chunk.antt =====
-- adapter/internal/exec/record.go: chunks, their kinds, and the status of an exec.
use microvm_agentic_sandbox.Prelude.{
  ℕ, String, ◌≡◌, refl, Bool, true, false, ℤ, Bytes, str_eq, if◌then◌else◌,
}

-- `ChunkKind`; a value outside the three constants does not arise.
pub data ChunkKind : Type 0 where
  stdout stderr done : ChunkKind

-- `ChunkKind.String`
unfoldable pub kind_string : ChunkKind → String
kind_string stdout = "stdout"
kind_string stderr = "stderr"
kind_string done = "done"

pub record Chunk : Type 0 where
  pub seq : ℕ
  pub kind : ChunkKind
  pub payload : Bytes
  pub exit_code : ℤ

pub data Status : Type 0 where
  running completed errored : Status

-- `Status.String`
unfoldable pub status_string : Status → String
status_string running = "running"
status_string completed = "completed"
status_string errored = "errored"

-- `parseStatus` of registry.go: any other text reads as running.
unfoldable pub parse_status : String → Status
parse_status s =
    if str_eq s "completed" then completed else if str_eq s "errored" then errored else running

-- `status == StatusRunning`
abbrev pub is_running : Status → Bool
is_running running = true
is_running completed = false
is_running errored = false

abbrev pub is_done : ChunkKind → Bool
is_done stdout = false
is_done stderr = false
is_done done = true

-- What is written to the execs table is read back as the same status.
pub parse_status-status_string : (s : Status) → parse_status (status_string s) ≡ s
unfolding parse_status status_string
parse_status-status_string running = refl
parse_status-status_string completed = refl
parse_status-status_string errored = refl
