-- ===== src/Exec/Load.antt =====
-- adapter/internal/exec/record.go: `Snapshot`, and a record that is rebuilt from its database row.
pub mod Laws
use microvm_agentic_sandbox.Prelude.{
  ℕ, ◌+◌, ◌%◌, String, Bool, List, [], ◌∷◌, ◌++◌, ℤ, Bytes, u64_mod, Time, length,
}
use microvm_agentic_sandbox.Exec.Chunk.{ChunkKind, stdout, stderr, Chunk, Status, running}
use microvm_agentic_sandbox.Exec.Channel.{data_chunk, done_chunk}
use microvm_agentic_sandbox.Exec.Record.{Env, ExecRecord}

-- One stored blob becomes a chunk unless it is empty: the chunks, the sequence number and the byte
-- count so far.
load_blob : ChunkKind → Bytes → List Chunk × ℕ × ℕ → List Chunk × ℕ × ℕ
load_blob kind [] (chunks, seq, bytes) = (chunks, seq, bytes)
load_blob kind (b ∷ bs) (chunks, seq, bytes) =
    (chunks ++ data_chunk seq kind (b ∷ bs) ∷ [], (seq + 1) % u64_mod, bytes + length (b ∷ bs))

load_done : Status → ℤ → List Chunk × ℕ × ℕ → List Chunk × ℕ × ℕ
load_done running code loaded = loaded
load_done _ code (chunks, seq, bytes) =
    (chunks ++ done_chunk seq code ∷ [], (seq + 1) % u64_mod, bytes)

-- the chunks, `nextSeq` and `outputBytes` of a record that is read back from its row
unfoldable pub load_chunks : Status → ℤ → Bytes → Bytes → List Chunk × ℕ × ℕ
unfolding load_blob load_done
load_chunks status code out err =
    load_done status code (load_blob stderr err (load_blob stdout out ([], 0, 0)))

pub record Snapshot : Type 0 where
  pub id : String
  pub sandbox_id : String
  pub command : List String
  pub env : Env
  pub cwd : String
  pub background : Bool
  pub status : Status
  pub exit_code : ℤ
  pub started_at : Time
  pub completed_at : Time
  pub output_bytes : ℕ
  pub truncated : Bool
  pub max_output_bytes : ℤ
  pub next_seq : ℕ
  pub completion_err : String

unfoldable pub snapshot : ExecRecord → Snapshot
snapshot r = record {
  id = r.id;
  sandbox_id = r.sandbox_id;
  command = r.command;
  env = r.env;
  cwd = r.cwd;
  background = r.background;
  status = r.status;
  exit_code = r.exit_code;
  started_at = r.started_at;
  completed_at = r.completed_at;
  output_bytes = r.output_bytes;
  truncated = r.truncated;
  max_output_bytes = r.max_output_bytes;
  next_seq = r.next_seq;
  completion_err = r.completion_err;
}

-- `NewExecRecordFromDB`
unfoldable pub new_exec_record_from_db :
    String
    → String
    → String
    → String
    → Env
    → Bool
    → ℤ
    → Status
    → ℤ
    → Bytes
    → Bytes
    → Bool
    → String
    → Time
    → Time
    → ExecRecord
unfolding load_chunks
new_exec_record_from_db id sandbox_id command cwd env background max_output_bytes status code out
      err truncated reason started completed_at =
    let loaded = load_chunks status code out err in
    record {
      id = id;
      sandbox_id = sandbox_id;
      command = command ∷ [];
      env = env;
      cwd = cwd;
      background = background;
      max_output_bytes = max_output_bytes;
      status = status;
      exit_code = code;
      started_at = started;
      completed_at = completed_at;
      chunks = loaded.0;
      next_seq = loaded.1;
      output_bytes = loaded.2;
      truncated = truncated;
      subscribers = [];
      completion_err = reason;
    }
