-- ===== src/Exec/Channel.antt =====
-- adapter/internal/exec/record.go: the channels between an `ExecRecord` and its subscribers.
use microvm_agentic_sandbox.Prelude.{
  ℕ, Bool, true, false, Option, none, some, List, [], ◌∷◌, ◌++◌, map, ltb, if◌then◌else◌, ℤ, pos,
  Bytes, length,
}
use microvm_agentic_sandbox.Exec.Chunk.{ChunkKind, done, Chunk}

-- the capacity of the channel that `Subscribe` makes
abbrev pub channel_capacity : ℕ
channel_capacity = 64

-- A `chan Chunk` made by `Subscribe`, with what its reader has taken out of it so far.
-- `owed` is the send that the producer's fan-out loop has still to make to it, the chunk having
-- been recorded; `panicked` is set by a send on the closed channel.
pub record Channel : Type 0 where
  pub buffer : List Chunk
  pub taken : List Chunk
  pub registered : Bool
  pub closed : Bool
  pub owed : Option Chunk
  pub panicked : Bool

abbrev pub data_chunk : ℕ → ChunkKind → Bytes → Chunk
data_chunk seq kind bytes = record { seq = seq; kind = kind; payload = bytes; exit_code = pos 0 }

abbrev pub done_chunk : ℕ → ℤ → Chunk
done_chunk seq code = record { seq = seq; kind = done; payload = []; exit_code = code }

-- `for ch := range r.subscribers`, under the lock: the sends that the loop after it will make
abbrev pub owe : Chunk → Channel → Channel
owe c ch = if ch.registered then record ch { owed = some c } else ch

abbrev pub publish : Chunk → List Channel → List Channel
publish c = map (owe c)

-- `select { case ch <- chunk: default: }`: a send that does not block. A full buffer drops it.
abbrev pub push : Chunk → Channel → Channel
push c ch =
    if ltb (length ch.buffer) channel_capacity
    then record ch { buffer = ch.buffer ++ c ∷ [] }
    else ch

abbrev pub try_send : Chunk → Channel → Channel
try_send c ch = if ch.closed then record ch { panicked = true } else push c ch

unfoldable pub settle : Option Chunk → Channel → Channel
settle none ch = ch
settle (some c) ch = record (try_send c ch) { owed = none }

-- The send that the loop owes to one channel.
unfoldable pub deliver : Channel → Channel
unfolding settle
deliver ch = settle ch.owed ch

-- One round of the replay loop of `Subscribe`.
abbrev pub replay_one : ℕ → Channel → Chunk → Channel
replay_one from_seq ch c = if ltb c.seq from_seq then ch else push c ch

unfoldable pub replay : ℕ → List Chunk → Channel → Channel
replay from_seq [] ch = ch
replay from_seq (c ∷ cs) ch = replay from_seq cs (replay_one from_seq ch c)

abbrev pub fresh_channel : Channel
fresh_channel = record {
  buffer = [];
  taken = [];
  registered = false;
  closed = false;
  owed = none;
  panicked = false;
}

unfoldable pub unsubscribe : Channel → Channel
unsubscribe ch = if ch.registered then record ch { registered = false; closed = true } else ch

unfoldable pub take_next : List Chunk → Channel → Channel
take_next [] ch = ch
take_next (c ∷ cs) ch = record ch { buffer = cs; taken = ch.taken ++ c ∷ [] }

-- `<-ch` where a chunk is there.
unfoldable pub receive : Channel → Channel
unfolding take_next
receive ch = take_next ch.buffer ch
