-- ===== src/Api/Stream.antt =====
-- adapter/internal/api/exec.go: the server-sent events of `GetOutputStream`. What each round of its
-- `select` meets is an argument; the JSON of a payload is kept as its fields.
pub mod Chunks
pub mod Decimal
pub mod Rejoin
pub mod Told
use microvm_agentic_sandbox.Prelude.{
  ℕ, zero, suc, ◌+◌, ◌/◌, ◌%◌, String, Bool, true, false, Option, none, some, List, [], ◌∷◌, ◌++◌,
  ltb, if◌then◌else◌, ℤ, Bytes, u64_mod,
}
use microvm_agentic_sandbox.Exec.Chunk.{ChunkKind, stdout, stderr, done, Chunk, is_done}
use microvm_agentic_sandbox.Exec.Channel.{Channel}
use microvm_agentic_sandbox.Exec.Record.{open_channel}
use microvm_agentic_sandbox.Exec.Table.{EnvCodec}
use microvm_agentic_sandbox.Api.Signal.{digits_value}
use microvm_agentic_sandbox.Api.Base64.{encode_to_string}
use microvm_agentic_sandbox.Api.Http.{write_error, Texts, Handled, go, stop, panics, ◌>>=◌}
use microvm_agentic_sandbox.Api.Execs.{Server, Faults, own_exec}

-- `%d` of a uint64: its digits before `rest`, with more fuel than there are digits.
unfoldable pub digits_before : ℕ → ℕ → Bytes → Bytes
digits_before zero n rest = rest
digits_before (suc fuel) n rest =
    let longer = digits_before fuel (n / 10) ((b'0' + n % 10) ∷ rest) in
    if ltb n 10 then (b'0' + n) ∷ rest else longer

unfoldable pub decimal : ℕ → Bytes
decimal n = digits_before (suc n) n []

-- `sseDataPayload` and `sseDonePayload`
pub data Payload : Type 0 where
  bytes_payload : Bytes → Payload
  done_payload : ℤ → Payload

pub record Event : Type 0 where
  pub name : String
  pub id : Bytes
  pub payload : Payload

pub event_name : ChunkKind → String
event_name stdout = "stdout"
event_name stderr = "stderr"
event_name done = "done"

event_payload : Chunk → Payload
event_payload c = elim c.kind [
  | stdout ↦ bytes_payload (encode_to_string c.payload)
  | stderr ↦ bytes_payload (encode_to_string c.payload)
  | done ↦ done_payload c.exit_code
]

-- `writeSSEEvent`
unfoldable pub sse_event : Chunk → Event
unfolding event_name event_payload
sse_event c = record { name = event_name c.kind; id = decimal c.seq; payload = event_payload c }

-- `strconv.ParseUint(lastID, 10, 64)`
in_u64 : Option ℕ → Option ℕ
in_u64 none = none
in_u64 (some n) = if ltb n u64_mod then some n else none

unfoldable pub parse_uint : Bytes → Option ℕ
unfolding in_u64
parse_uint [] = none
parse_uint (c ∷ cs) = in_u64 (digits_value 0 (c ∷ cs))

after_last : Option ℕ → ℕ
after_last none = 0
after_last (some n) = (n + 1) % u64_mod

-- The sequence number that the Last-Event-ID asks for; it is empty where there is no header.
unfoldable pub resume_from : Bytes → ℕ
unfolding after_last
resume_from last_id = after_last (parse_uint last_id)

-- What one round of the `select` meets: a chunk and whether its event could be written, the closed
-- channel, the heartbeat and whether it could be written, or the end of the request.
pub data Wake : Type 0 where
  arrives : Chunk → Bool → Wake
  ends : Wake
  beats : Bool → Wake
  leaves : Wake

pub data Piece : Type 0 where
  event : Event → Piece
  heartbeat : Piece

-- The loop, and what it writes.
unfoldable pub serve : List Wake → List Piece
serve [] = []
serve (arrives c true ∷ wakes) =
    let rest = serve wakes in event (sse_event c) ∷ (if is_done c.kind then [] else rest)
serve (beats true ∷ wakes) = heartbeat ∷ serve wakes
serve (_ ∷ wakes) = []

with_flusher : Bool → Handled (Unit {0})
with_flusher true = go tt
with_flusher false = stop (write_error 500 "no_flusher" "response writer doesn't support streaming")

-- `ExecHandler.GetOutputStream`; `wakes` is what its rounds meet on the channel.
unfoldable pub stream_handler :
    EnvCodec
    → Texts
    → Faults
    → String
    → String
    → Server
    → Bool
    → (Channel → List Wake)
    → Bytes
    → Handled (List Piece)
unfolding with_flusher
stream_handler codec texts faults sandbox_id exec_id s flushes wakes last_id = do
  r ← own_exec codec texts faults.registry_query sandbox_id exec_id s.registry
  u ← with_flusher flushes
  go (serve (wakes (open_channel (resume_from last_id) r)))
