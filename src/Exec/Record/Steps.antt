-- ===== src/Exec/Record/Steps.antt =====
-- The interleavings of one producer with any number of subscribers of a record.
-- A step is what one goroutine does under the lock, or one operation on a channel: the sends of the
-- fan-out loop come after the lock is released, so other steps may come between them. The producer
-- is one goroutine, so it records the next chunk when it has made all sends of the last one.
use microvm_agentic_sandbox.Prelude.{ℕ, ◌≡◌, false, none, Bytes, ℤ, Time, String, modify, All}
use microvm_agentic_sandbox.Exec.Chunk.{ChunkKind, Status, is_done, is_running}
use microvm_agentic_sandbox.Exec.Channel.{deliver, receive}
use microvm_agentic_sandbox.Exec.Record.{
  ExecRecord, append_locked, finish_locked, subscribe, cancel,
}

-- The send that is owed to the channel at place `i`.
unfoldable pub deliver_at : ℕ → ExecRecord → ExecRecord
deliver_at i r = record r { subscribers = modify i deliver r.subscribers }

-- The reader of the channel at place `i` takes the next chunk out.
unfoldable pub receive_at : ℕ → ExecRecord → ExecRecord
receive_at i r = record r { subscribers = modify i receive r.subscribers }

-- No send is owed.
abbrev pub IsSettled : ExecRecord → Type 0
IsSettled r = All (λ ch. ch.owed ≡ none) r.subscribers

pub data Step : ExecRecord → ExecRecord → Type 0 where
  emit :
      (r : ExecRecord) (kind : ChunkKind) (bytes : Bytes)
      → is_done kind ≡ false
      → IsSettled r
      → Step r (append_locked kind bytes r)
  close :
      (r : ExecRecord) (status : Status) (code : ℤ) (reason : String) (now : Time)
      → is_running status ≡ false
      → IsSettled r
      → Step r (finish_locked status code reason now r)
  send : (r : ExecRecord) (i : ℕ) → Step r (deliver_at i r)
  join : (r : ExecRecord) (from_seq : ℕ) → Step r (subscribe from_seq r).0
  leave : (r : ExecRecord) (i : ℕ) → Step r (cancel i r)
  read : (r : ExecRecord) (i : ℕ) → Step r (receive_at i r)

pub data Reach (s : ExecRecord) : ExecRecord → Type 0 where
  here : Reach s s
  next : {t u : ExecRecord} → Reach s t → Step t u → Reach s u
