-- ===== src/Agent.antt =====
-- adapter/internal/agent/client.go: `Client`, over the stubs that protoc generates and the transport of
-- gRPC, which are not modelled: `AgentStub` is the calls that the client makes, over an unknown state
-- behind them. `Ping` is in Api/Ping.
pub mod Carried
pub mod Guests
pub mod Running
pub mod Stdin
use microvm_agentic_sandbox.Prelude.{
  String, Bool, true, false, List, [], ◌∷◌, str_eq, if◌then◌else◌, ℤ, Bytes,
}
use microvm_agentic_sandbox.Exec.Record.{Env}
use microvm_agentic_sandbox.Guest.{Code, unknown_code, Response}
use microvm_agentic_sandbox.Guest.Frames.{received}
use microvm_agentic_sandbox.Api.Drain.{ExecChunk}
use microvm_agentic_sandbox.Api.Execs.Start.{AgentRequest, StartReply, streams, not_started}

-- `pb.ExecRequest`, `pb.StdinWriteRequest` and `pb.SignalRequest`
pub record ProtoExec : Type 0 where
  pub exec_id : String
  pub cmd : List String
  pub env : Env
  pub workdir : String

pub record ProtoStdin : Type 0 where
  pub exec_id : String
  pub bytes : Bytes
  pub eof : Bool

pub record ProtoSignal : Type 0 where
  pub exec_id : String
  pub signo : ℤ

-- What `stream.Recv` gives.
pub data Receipt : Type 0 where
  next_frame : Response → Receipt
  end_of_stream broken_stream : Receipt

pub data StreamReply : Type 0 where
  stream : List Receipt → StreamReply
  no_stream : Code → StreamReply

-- `pb.AgentClient`
pub record AgentStub : Type 1 where
  pub State : Type 0
  pub exec : ProtoExec → State → StreamReply × State
  pub stdin_write : ProtoStdin → State → Code × State
  pub signal : ProtoSignal → State → Code × State

-- What `Exec` returns: the chunks that its channel gives until it is closed, or an error.
pub data ExecResult : Type 0 where
  channel : List ExecChunk → ExecResult
  no_exec_id : ExecResult
  exec_failed : Code → ExecResult

-- The goroutine that `Exec` starts, up to where it closes the channel.
unfoldable pub forwarded : List Receipt → List ExecChunk
forwarded [] = []
forwarded (next_frame r ∷ replies) = received r ∷ forwarded replies
forwarded (end_of_stream ∷ replies) = []
forwarded (broken_stream ∷ replies) = []

streamed : {S : Type 0} → StreamReply × S → ExecResult × S
streamed (stream replies, k) = (channel (forwarded replies), k)
streamed (no_stream code, k) = (exec_failed code, k)

proto_exec : AgentRequest → ProtoExec
proto_exec req = record {
  exec_id = req.exec_id;
  cmd = req.cmd;
  env = req.env;
  workdir = req.workdir;
}

module _ (stub : AgentStub) where
  -- `Exec`
  unfoldable pub client_exec : AgentRequest → stub.State → ExecResult × stub.State
  unfolding streamed proto_exec
  client_exec req k =
      if str_eq req.exec_id "" then (no_exec_id, k) else streamed (stub.exec (proto_exec req) k)

  -- `StdinWrite`
  unfoldable pub client_stdin_write : String → Bytes → Bool → stub.State → Code × stub.State
  client_stdin_write exec_id bytes eof k =
      stub.stdin_write (record { exec_id = exec_id; bytes = bytes; eof = eof }) k

  -- `Signal`
  unfoldable pub client_signal : String → ℤ → stub.State → Code × stub.State
  client_signal exec_id signo k = stub.signal (record { exec_id = exec_id; signo = signo }) k

-- How the handlers read what `Exec` returns; an error of the client itself has no gRPC code.
unfoldable pub start_reply : Bool → ExecResult → StartReply
start_reply timed_out (channel chunks) = streams chunks timed_out
start_reply timed_out no_exec_id = not_started unknown_code
start_reply timed_out (exec_failed code) = not_started code
