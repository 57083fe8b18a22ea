-- ===== src/Exec/Record.antt =====
-- adapter/internal/exec/record.go: `ExecRecord` and its methods.
-- `subscribers` lists every channel that `Subscribe` has made, in the order of creation, so that a
-- channel is named by its place; the flag `registered` says whether the Go map holds it.
-- The byte counts of the source are int64 and stay below `max_output_bytes_hard`, so no wrap-around
-- is written; `next_seq` is a uint64 and wraps.
pub mod Stream
pub mod Invariant
pub mod Capture
pub mod Output
pub mod Steps
pub mod Heard
pub mod Delivery
pub mod Sends
pub mod Replay
pub mod Refine
pub mod Kept
pub mod Moves
use microvm_agentic_sandbox.Prelude.{
  ℕ, suc, ◌+◌, ◌*◌, ◌%◌, String, Bool, true, false, ◌||◌, not, Option, List, [], ◌∷◌, ◌++◌, map,
  ltb, leb, if◌then◌else◌, ℤ, pos, negsuc, sub_ℕ, Bytes, u64_mod, Time, length, take, modify,
}
use microvm_agentic_sandbox.Prelude.Dict.{Dict}
use microvm_agentic_sandbox.Exec.Chunk.{
  ChunkKind, stdout, stderr, done, Chunk, Status, running, completed, errored, is_running,
}
use microvm_agentic_sandbox.Exec.Channel.{
  Channel, data_chunk, done_chunk, publish, deliver, replay, fresh_channel, unsubscribe,
}

-- `MaxOutputBytesHard`, 100 MiB
abbrev pub max_output_bytes_hard : ℕ
max_output_bytes_hard = 100 * 1024 * 1024

-- A nil map is `none`.
abbrev pub Env : Type 0
Env = Option (Dict String)

pub record ExecRecord : Type 0 where
  pub id : String
  pub sandbox_id : String
  pub command : List String
  pub env : Env
  pub cwd : String
  pub background : Bool
  pub max_output_bytes : ℤ
  pub status : Status
  pub exit_code : ℤ
  pub started_at : Time
  pub completed_at : Time
  pub chunks : List Chunk
  pub next_seq : ℕ
  pub output_bytes : ℕ
  pub truncated : Bool
  pub subscribers : List Channel
  pub completion_err : String

-- `maxOutputBytes <= 0 || maxOutputBytes > MaxOutputBytesHard`
unfoldable pub clamp_output : ℤ → ℤ
clamp_output (negsuc n) = pos max_output_bytes_hard
clamp_output (pos n) =
    if leb n 0 || ltb max_output_bytes_hard n then pos max_output_bytes_hard else pos n

unfoldable pub new_exec_record :
    String → String → List String → Env → String → Bool → ℤ → Time → ExecRecord
new_exec_record id sandbox_id cmd env cwd background max_output_bytes now = record {
  id = id;
  sandbox_id = sandbox_id;
  command = cmd;
  env = env;
  cwd = cwd;
  background = background;
  max_output_bytes = clamp_output max_output_bytes;
  status = running;
  exit_code = pos 0;
  started_at = now;
  completed_at = 0;
  chunks = [];
  next_seq = 0;
  output_bytes = 0;
  truncated = false;
  subscribers = [];
  completion_err = "";
}

-- `MaxOutputBytes - outputBytes`
pub remaining : ℤ → ℕ → ℤ
remaining (pos m) n = sub_ℕ m n
remaining (negsuc m) n = negsuc (m + n)

-- `Append` past the first test, with `left` bytes still to fill
unfoldable pub capture : ChunkKind → Bytes → ExecRecord → ℕ → ExecRecord
capture kind bytes r left =
    let over = ltb left (length bytes) in
    let payload = if over then take left bytes else bytes in
    let chunk = data_chunk r.next_seq kind payload in
    record r {
      truncated = over || r.truncated;
      next_seq = (r.next_seq + 1) % u64_mod;
      chunks = r.chunks ++ chunk ∷ [];
      output_bytes = r.output_bytes + length payload;
      subscribers = publish chunk r.subscribers;
    }

unfoldable pub append_within : ChunkKind → Bytes → ExecRecord → ℤ → ExecRecord
append_within kind bytes r (pos (suc n)) = capture kind bytes r (suc n)
append_within kind bytes r _ = record r { truncated = true }

-- `Append` up to its `Unlock`
unfoldable pub append_locked : ChunkKind → Bytes → ExecRecord → ExecRecord
unfolding append_within capture remaining
append_locked kind bytes r =
    append_within kind bytes r (remaining r.max_output_bytes r.output_bytes)

-- `finish` up to its `Unlock`
pub close_out : ExecRecord → Status → ℤ → String → Time → ExecRecord
close_out r status code reason now =
    let chunk = done_chunk r.next_seq code in
    record r {
      status = status;
      exit_code = code;
      completed_at = now;
      completion_err = reason;
      next_seq = (r.next_seq + 1) % u64_mod;
      chunks = r.chunks ++ chunk ∷ [];
      subscribers = publish chunk r.subscribers;
    }

unfoldable pub finish_locked : Status → ℤ → String → Time → ExecRecord → ExecRecord
unfolding close_out
finish_locked status code reason now r =
    if is_running r.status then close_out r status code reason now else r

-- The loop after the `Unlock`.
unfoldable pub fan_out : ExecRecord → ExecRecord
fan_out r = record r { subscribers = map deliver r.subscribers }

-- The whole methods, with nothing interleaved.
unfoldable pub append : ChunkKind → Bytes → ExecRecord → ExecRecord
append kind bytes r = fan_out (append_locked kind bytes r)

unfoldable pub finish : Status → ℤ → String → Time → ExecRecord → ExecRecord
finish status code reason now r = fan_out (finish_locked status code reason now r)

unfoldable pub complete : ℤ → Time → ExecRecord → ExecRecord
complete code now r = finish completed code "" now r

-- `ExecRecord.Errored`
unfoldable pub fail : ℤ → String → Time → ExecRecord → ExecRecord
fail code reason now r = finish errored code reason now r

-- The channel that `Subscribe` returns: held by the map if the exec runs, closed if it does not.
unfoldable pub open_channel : ℕ → ExecRecord → Channel
unfolding replay
open_channel from_seq r = record (replay from_seq r.chunks fresh_channel) {
  registered = is_running r.status;
  closed = not (is_running r.status);
}

-- `Subscribe`: the record, and the place of the new channel.
unfoldable pub subscribe : ℕ → ExecRecord → ExecRecord × ℕ
unfolding open_channel
subscribe from_seq r =
    (record r { subscribers = r.subscribers ++ open_channel from_seq r ∷ [] }, length r.subscribers)

-- The function that `Subscribe` returns beside the channel.
unfoldable pub cancel : ℕ → ExecRecord → ExecRecord
unfolding unsubscribe
cancel i r = record r { subscribers = modify i unsubscribe r.subscribers }

-- One round of the loop of `Output`.
collect : Bytes × Bytes → Chunk → Bytes × Bytes
collect (out, err) c = elim c.kind [
  | stdout ↦ (out ++ c.payload, err)
  | stderr ↦ (out, err ++ c.payload)
  | done ↦ (out, err)
]

collect_all : Bytes × Bytes → List Chunk → Bytes × Bytes
collect_all acc [] = acc
collect_all acc (c ∷ cs) = collect_all (collect acc c) cs

unfoldable pub output : ExecRecord → Bytes × Bytes
unfolding collect_all collect
output r = collect_all ([], []) r.chunks
