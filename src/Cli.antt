-- ===== src/Cli.antt =====
-- agent-client/main.go: the command-line client of a guest agent. The flags, the connection and what the
-- stream gives are arguments; `exit_line` is the text that is formatted at the end.
pub mod Printing
use microvm_agentic_sandbox.Prelude.{
  String, Bool, List, [], ◌∷◌, ◌++◌, length, if◌then◌else◌, ltb, ℤ, pos, Bytes,
}
use microvm_agentic_sandbox.Guest.{Response}
use microvm_agentic_sandbox.Agent.{
  Receipt, next_frame, end_of_stream, broken_stream, StreamReply, stream, no_stream,
}

-- What has been written to the standard output and to the standard error.
pub record Screen : Type 0 where
  pub out : Bytes
  pub err : Bytes

-- How `main` ends: by `os.Exit`, by `log.Fatal` with status 1, or not yet.
pub data CliEnd : Type 0 where
  exits : ℤ → Screen → CliEnd
  usage_shown not_dialed not_started : CliEnd
  recv_failed : Screen → CliEnd
  waits : Screen → CliEnd

-- `if len(resp.Stdout) > 0 { … }`, and the same for the other
abbrev pub print : Response → Screen → Screen
print r s = record {
  out = if ltb 0 (length r.out) then s.out ++ r.out else s.out;
  err = if ltb 0 (length r.err) then s.err ++ r.err else s.err;
}

-- The loop, with `exit`.
unfoldable pub receive_all : (ℤ → Bytes) → ℤ → List Receipt → Screen → CliEnd
receive_all exit_line exit [] s = waits s
receive_all exit_line exit (next_frame r ∷ replies) s =
    receive_all exit_line (if r.is_last then r.exit_code else exit) replies (print r s)
receive_all exit_line exit (end_of_stream ∷ replies) s =
    exits exit (record s { err = s.err ++ exit_line exit })
receive_all exit_line exit (broken_stream ∷ replies) s = recv_failed s

with_stream : (ℤ → Bytes) → StreamReply → CliEnd
with_stream exit_line (no_stream code) = not_started
with_stream exit_line (stream replies) =
    receive_all exit_line (pos 0) replies (record { out = []; err = [] })

-- `main`; `dialed` says whether the connection was made, `reply` is what the call of Exec gives.
unfoldable pub run_cli : (ℤ → Bytes) → List String → Bool → StreamReply → CliEnd
unfolding with_stream
run_cli exit_line [] dialed reply = usage_shown
run_cli exit_line (arg ∷ args) dialed reply =
    if dialed then with_stream exit_line reply else not_dialed
