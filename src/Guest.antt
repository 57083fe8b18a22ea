-- ===== src/Guest.antt =====
-- guest-agent/server.go: the server inside a sandbox. It keeps the execs that run by their id, with the
-- handle of the child process, and sends the output of each as frames. The operating system answers
-- from outside: `Start` and `Wait` hold what it says, and `effects` lists what it is asked to do.
pub mod Frames
pub mod Running
pub mod Files
use microvm_agentic_sandbox.Prelude.{
  ℕ, ◌+◌, String, Bool, true, false, Option, none, some, List, [], ◌∷◌, ◌++◌, str_eq, ltb,
  if◌then◌else◌, ℤ, pos, Bytes, length,
}
use microvm_agentic_sandbox.Prelude.Dict
use microvm_agentic_sandbox.Prelude.Dict.{Dict}

pub data GuestEffect : Type 0 where
  process_killed process_reaped stdin_closed : ℕ → GuestEffect
  stdin_written : ℕ → Bytes → GuestEffect
  process_signalled : ℕ → ℤ → GuestEffect
  file_written : String → Bytes → ℕ → GuestEffect

-- `agentServer`
pub record AgentServer : Type 0 where
  pub execs : Dict ℕ
  pub effects : List GuestEffect

-- the gRPC codes; an error that has none counts as unknown
pub data Code : Type 0 where
  ok_code invalid_argument already_exists not_found_code failed_precondition internal : Code
  unavailable unknown_code : Code

abbrev pub ask : GuestEffect → AgentServer → AgentServer
ask e s = record s { effects = s.effects ++ e ∷ [] }

unfoldable pub register_running : String → ℕ → AgentServer → Code × AgentServer
register_running exec_id child s = elim (Dict.get s.execs exec_id) [
  | some _ ↦ (already_exists, s)
  | none ↦ (ok_code, record s { execs = Dict.put s.execs exec_id child })
]

unfoldable pub unregister_running : String → AgentServer → AgentServer
unregister_running exec_id s = record s { execs = Dict.remove s.execs exec_id }

-- What the making of the three pipes and the start of the child give: its handle, or an error.
abbrev pub Start : Type 0
Start = Option ℕ

-- The child that could not be registered is killed and reaped.
drop_child : ℕ → Code × AgentServer → Code × AgentServer
drop_child child (already_exists, s) =
    (already_exists, ask (process_reaped child) (ask (process_killed child) s))
drop_child child (code, s) = (code, s)

start_child : String → Start → AgentServer → Code × AgentServer
start_child exec_id none s = (internal, s)
start_child exec_id (some child) s = drop_child child (register_running exec_id child s)

-- `Exec` up to the pumps.
unfoldable pub begin_exec : String → List String → Start → AgentServer → Code × AgentServer
unfolding start_child drop_child
begin_exec exec_id [] start s = (invalid_argument, s)
begin_exec exec_id (name ∷ args) start s =
    if str_eq exec_id "" then (invalid_argument, s) else start_child exec_id start s

-- How the child ended, by `cmd.Wait`.
pub data Wait : Type 0 where
  succeeded : Wait
  exited : ℤ → Wait
  signalled : ℕ → Wait
  wait_failed : Wait

unfoldable pub exit_code_of : Wait → ℤ
exit_code_of succeeded = pos 0
exit_code_of (exited code) = code
exit_code_of (signalled signo) = pos (128 + signo)
exit_code_of wait_failed = pos 0

-- `pb.ExecResponse`
pub record Response : Type 0 where
  pub out : Bytes
  pub err : Bytes
  pub exit_code : ℤ
  pub is_last : Bool

-- What one `Read` gives: bytes, and whether it is the last, by the end of the file or an error.
pub record Read : Type 0 where
  pub bytes : Bytes
  pub over : Bool

abbrev pub frame_of : Bool → Bytes → Response
frame_of true bytes = record { out = []; err = bytes; exit_code = pos 0; is_last = false }
frame_of false bytes = record { out = bytes; err = []; exit_code = pos 0; is_last = false }

-- `pump`, where every send is taken: the frames that it sends
unfoldable pub pump : Bool → List Read → List Response
pump is_err [] = []
pump is_err (r ∷ reads) =
    let later = pump is_err reads in
    let rest = if r.over then [] else later in
    if ltb 0 (length r.bytes) then frame_of is_err r.bytes ∷ rest else rest

-- The frame that `Exec` sends at the end.
unfoldable pub last_frame : Wait → Response
last_frame how = record { out = []; err = []; exit_code = exit_code_of how; is_last = true }

-- The rest of `Exec`, when its pumps are done: the last frame, and the deferred unregistration.
unfoldable pub end_exec : String → Wait → AgentServer → Response × AgentServer
end_exec exec_id how s = (last_frame how, unregister_running exec_id s)

-- `len(req.Data) > 0`, the write and the close, where each may fail.
unfoldable pub close_stdin : Bool → Bool → ℕ → AgentServer → Code × AgentServer
close_stdin eof closes child s =
    if eof
    then if closes then (ok_code, ask (stdin_closed child) s) else (internal, s)
    else (ok_code, s)

unfoldable pub write_stdin : Bytes → Bool → Bool → Bool → ℕ → AgentServer → Code × AgentServer
write_stdin [] eof writes closes child s = close_stdin eof closes child s
write_stdin (b ∷ bs) eof writes closes child s =
    if writes
    then close_stdin eof closes child (ask (stdin_written child (b ∷ bs)) s)
    else (internal, s)

unfoldable pub stdin_write : String → Bytes → Bool → Bool → Bool → AgentServer → Code × AgentServer
unfolding write_stdin close_stdin
stdin_write exec_id bytes eof writes closes s =
    if str_eq exec_id "" then (invalid_argument, s) else elim (Dict.get s.execs exec_id) [
      | none ↦ (not_found_code, s)
      | some child ↦ write_stdin bytes eof writes closes child s
    ]

-- `Signal`; `sent` says that the operating system took the signal. A registered child has started.
unfoldable pub signal_exec : String → ℤ → Bool → AgentServer → Code × AgentServer
signal_exec exec_id signo sent s =
    if str_eq exec_id "" then (invalid_argument, s) else elim (Dict.get s.execs exec_id) [
      | none ↦ (not_found_code, s)
      | some child ↦
          if sent then (ok_code, ask (process_signalled child signo) s) else (internal, s)
    ]
