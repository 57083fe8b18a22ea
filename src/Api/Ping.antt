-- ===== src/Api/Ping.antt =====
-- adapter/internal/agent/client.go: `Ping`, over what the transport answers.
use microvm_agentic_sandbox.Prelude.{
  Bool, true, false, Option, none, some, List, [], ◌∷◌, if◌then◌else◌,
}

-- What `stream.Recv` gives: a frame, the end of the stream, or an error.
pub data Recv : Type 0 where
  frame_comes stream_ends recv_fails : Recv

-- Whether the loop has found the agent responding; `none` while it goes on.
unfoldable pub ping_rounds : List Recv → Option Bool
ping_rounds [] = none
ping_rounds (frame_comes ∷ replies) = ping_rounds replies
ping_rounds (stream_ends ∷ replies) = some true
ping_rounds (recv_fails ∷ replies) = some false

-- `opened` says whether the call of Exec gave a stream.
unfoldable pub ping : Bool → List Recv → Option Bool
ping opened replies = if opened then ping_rounds replies else some false
