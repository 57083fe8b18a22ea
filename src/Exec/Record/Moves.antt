-- ===== src/Exec/Record/Moves.antt =====
-- adapter/internal/exec/record.go: what goroutines do to one record, in the pieces that the lock makes of
-- the methods. The sends of `Append` and `finish`, which come after the lock is released, are moves
-- of their own.
use microvm_agentic_sandbox.Prelude.{
  ℕ, ◌≡◌, refl, false, List, [], ◌∷◌, Bytes, String, ℤ, Time, All,
}
use microvm_agentic_sandbox.Exec.Chunk.{ChunkKind, Status}
use microvm_agentic_sandbox.Exec.Record.{
  ExecRecord, append_locked, finish_locked, fan_out, append, finish, subscribe, cancel,
}
use microvm_agentic_sandbox.Exec.Record.Invariant.{subscribers-IsValid}
use microvm_agentic_sandbox.Exec.Record.Steps.{deliver_at, receive_at, IsSettled}
use microvm_agentic_sandbox.Exec.Record.Sends.{
  Call, appends, finishes, subscribes, cancels, receives, perform,
}
use microvm_agentic_sandbox.Exec.Record.Refine.{
  Log, log_all, IsProper, Represents, perform-Represents,
}
use microvm_agentic_sandbox.Exec.Record.Kept.{identity, perform-identity}

-- `captures` and `closes_out` are `Append` and `finish` up to their `Unlock`, `sends` is one send of the
-- loop after it; `joins` is `Subscribe`, `quits` what it returns beside the channel, and `reads` a
-- receive on a channel.
pub data Move : Type 0 where
  captures : ChunkKind → Bytes → Move
  closes_out : Status → ℤ → String → Time → Move
  sends joins quits reads : ℕ → Move

unfoldable pub make : Move → ExecRecord → ExecRecord
make (captures kind bytes) r = append_locked kind bytes r
make (closes_out status code reason now) r = finish_locked status code reason now r
make (sends i) r = deliver_at i r
make (joins from_seq) r = (subscribe from_seq r).0
make (quits i) r = cancel i r
make (reads i) r = receive_at i r

-- One goroutine writes a record, so it records the next chunk when it has sent the last one; and a send
-- on a closed channel panics, after which the adapter is gone.
abbrev pub CanMake : Move → ExecRecord → Type 0
CanMake (captures kind bytes) r = IsSettled r
CanMake (closes_out status code reason now) r = IsSettled r
CanMake (sends i) r = All (λ ch. ch.panicked ≡ false) (deliver_at i r).subscribers
CanMake (joins from_seq) r = Unit {0}
CanMake (quits i) r = Unit {0}
CanMake (reads i) r = Unit {0}

-- The call whose part under the lock the move is, where that writes.
abbrev pub write_of : Move → List Call
write_of (captures kind bytes) = appends kind bytes ∷ []
write_of (closes_out status code reason now) = finishes status code reason now ∷ []
write_of (sends i) = []
write_of (joins from_seq) = []
write_of (quits i) = []
write_of (reads i) = []

pub make-identity : (move : Move) (r : ExecRecord) → identity (make move r) ≡ identity r
unfolding make perform append finish fan_out deliver_at
make-identity (captures kind bytes) r = perform-identity (appends kind bytes) r
make-identity (closes_out status code reason now) r =
    perform-identity (finishes status code reason now) r
make-identity (sends i) r = refl
make-identity (joins from_seq) r = perform-identity (subscribes from_seq) r
make-identity (quits i) r = perform-identity (cancels i) r
make-identity (reads i) r = perform-identity (receives i) r

unsent-Represents :
    (m : ℕ) (r : ExecRecord) (l : Log) → Represents m (fan_out r) l → Represents m r l
unfolding fan_out
unsent-Represents m r l h = record {
  valid = subscribers-IsValid m (fan_out r) r.subscribers h.valid;
  bytes = h.bytes;
  cut = h.cut;
  over = h.over;
}

-- A move takes a record that stands for a log to one that stands for the log with what the move writes,
-- sent or not.
pub make-Represents :
    (m : ℕ) (r : ExecRecord) (l : Log) (move : Move)
    → All IsProper (write_of move)
    → Represents m r l
    → Represents m (make move r) (log_all (write_of move) l)
unfolding make perform append finish deliver_at
make-Represents m r l (captures kind bytes) (p, _) h =
    unsent-Represents m _ _ (perform-Represents m r l h (appends kind bytes) p)
make-Represents m r l (closes_out status code reason now) (p, _) h =
    unsent-Represents m _ _ (perform-Represents m r l h (finishes status code reason now) p)
make-Represents m r l (sends i) p h = record {
  valid = subscribers-IsValid m r _ h.valid;
  bytes = h.bytes;
  cut = h.cut;
  over = h.over;
}
make-Represents m r l (joins from_seq) p h = perform-Represents m r l h (subscribes from_seq) tt
make-Represents m r l (quits i) p h = perform-Represents m r l h (cancels i) tt
make-Represents m r l (reads i) p h = perform-Represents m r l h (receives i) tt
