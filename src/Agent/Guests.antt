-- ===== src/Agent/Guests.antt =====
-- The client joined to guest-agent/server.go: stubs whose calls reach the handlers of one guest agent, each
-- in the state that the call before has left. The operating system's answers are arguments.
use microvm_agentic_sandbox.Prelude.{
  ◌≡◌, refl, ap, String, Bool, false, List, [], ◌∷◌, ◌++◌, map, str_eq,
}
use microvm_agentic_sandbox.Guest.{
  AgentServer, Code, ok_code, invalid_argument, already_exists, not_found_code, failed_precondition,
  internal, unavailable, unknown_code, Start, Wait, Response, begin_exec, end_exec, last_frame,
  stdin_write, signal_exec,
}
use microvm_agentic_sandbox.Guest.Frames.{received}
use microvm_agentic_sandbox.Api.Execs.Start.{AgentRequest}
use microvm_agentic_sandbox.Agent.{
  next_frame, end_of_stream, broken_stream, StreamReply, stream, AgentStub, channel, forwarded,
  streamed, proto_exec, client_exec,
}

-- What the operating system answers to the calls of one exec: its start, the frames that its pumps
-- send, and how the child ends; whether a write to its stdin, the close and a signal are taken.
pub record Child : Type 0 where
  pub start : Start
  pub frames : List Response
  pub how : Wait
  pub writes : Bool
  pub closes : Bool
  pub takes_signal : Bool

abbrev pub all_frames : Child → List Response
all_frames os = os.frames ++ last_frame os.how ∷ []

-- The whole of an Exec, where nothing else is called while it runs. An error of the handler reaches the
-- client where it receives: the stream is there.
unfoldable pub run_exec : Child → String → Code × AgentServer → StreamReply × AgentServer
run_exec os exec_id (ok_code, s) =
    (stream (map next_frame (all_frames os) ++ end_of_stream ∷ []), (end_exec exec_id os.how s).1)
run_exec os exec_id (code, s) = (stream (broken_stream ∷ []), s)

abbrev pub guest_stub : Child → AgentStub
guest_stub os = record {
  State = AgentServer;
  exec = λ req s. run_exec os req.exec_id (begin_exec req.exec_id req.cmd os.start s);
  stdin_write = λ req s. stdin_write req.exec_id req.bytes req.eof os.writes os.closes s;
  signal = λ req s. signal_exec req.exec_id req.signo os.takes_signal s;
}

forwarded-frames :
    (rs : List Response) → forwarded (map next_frame rs ++ end_of_stream ∷ []) ≡ map received rs
unfolding forwarded
forwarded-frames [] = refl
forwarded-frames (r ∷ rs) = ap (λ cs. received r ∷ cs) (forwarded-frames rs)

run_exec-frames :
    (os : Child) (exec_id : String) (r : Code × AgentServer)
    → r.0 ≡ ok_code
    → (streamed (run_exec os exec_id r)).0 ≡ channel (map received (all_frames os))
unfolding run_exec streamed
run_exec-frames os exec_id (ok_code, s) h = ap channel (forwarded-frames (all_frames os))
run_exec-frames os exec_id (invalid_argument, s) h = cc
run_exec-frames os exec_id (already_exists, s) h = cc
run_exec-frames os exec_id (not_found_code, s) h = cc
run_exec-frames os exec_id (failed_precondition, s) h = cc
run_exec-frames os exec_id (internal, s) h = cc
run_exec-frames os exec_id (unavailable, s) h = cc
run_exec-frames os exec_id (unknown_code, s) h = cc

-- An exec that begins: its channel gives what the adapter makes of the frames of the guest agent, all of
-- them and in their order.
pub client_exec-frames :
    (os : Child) (req : AgentRequest) (s : AgentServer)
    → str_eq req.exec_id "" ≡ false
    → (begin_exec req.exec_id req.cmd os.start s).0 ≡ ok_code
    → (client_exec (guest_stub os) req s).0 ≡ channel (map received (all_frames os))
unfolding client_exec proto_exec
client_exec-frames os req s named begun = rw named (run_exec-frames os req.exec_id _ begun)
