-- ===== src/Cli/Printing.antt =====
-- What the command-line client prints of an exec of the guest agent.
use microvm_agentic_sandbox.Prelude.{
  ◌≡◌, refl, sym, ap, ◌∙◌, String, true, false, List, [], ◌∷◌, ◌++◌, map, append-nil, append_assoc,
  length, if◌then◌else◌, ltb, ℤ, pos, Bytes, arith,
}
use microvm_agentic_sandbox.Guest.{Read, Response, Wait, pump, exit_code_of, last_frame}
use microvm_agentic_sandbox.Guest.Frames.{Merge, NotLast, Merge-NotLast, pump-NotLast, read_bytes}
use microvm_agentic_sandbox.Agent.{next_frame, end_of_stream, stream}
use microvm_agentic_sandbox.Agent.Carried.{out_bytes, err_bytes, out_bytes-merged, err_bytes-merged}
use microvm_agentic_sandbox.Cli.{Screen, CliEnd, exits, print, receive_all, with_stream, run_cli}

append_some : (bs more : Bytes) → (if ltb 0 (length more) then bs ++ more else bs) ≡ bs ++ more
append_some bs [] = sym (append-nil bs)
append_some bs (b ∷ more) = ground arith

print-append :
    (r : Response) (s : Screen) → print r s ≡ record { out = s.out ++ r.out; err = s.err ++ r.err }
print-append r s = rw (append_some s.out r.out, append_some s.err r.err) refl

module _ (exit_line : ℤ → Bytes) (how : Wait) where
  abbrev over : Screen → CliEnd
  over s = exits (exit_code_of how) (record s { err = s.err ++ exit_line (exit_code_of how) })

  receive_all-frames :
      (exit : ℤ) (rs : List Response) (s : Screen)
      → NotLast rs
      → receive_all exit_line exit
          (map next_frame (rs ++ last_frame how ∷ []) ++ end_of_stream ∷ [])
          s
        ≡ over (record { out = s.out ++ out_bytes rs; err = s.err ++ err_bytes rs })
  unfolding receive_all last_frame
  receive_all-frames exit [] s h = rw (append-nil s.out, append-nil s.err) refl
  receive_all-frames exit (r ∷ rs) s (p, h) =
      receive_all-frames _ rs (print r s) h
      ∙ ap (λ t. over (record { out = t.out ++ out_bytes rs; err = t.err ++ err_bytes rs }))
          (print-append r s)
      ∙ rw (append_assoc s.out r.out (out_bytes rs), append_assoc s.err r.err (err_bytes rs)) refl

  -- The command-line client, with a command and a connection, where the stream gives the frames of the guest
  -- agent and then ends: whatever the two pumps read, in whatever order their frames come, and
  -- however the child ends, it writes to its standard output and error exactly the bytes of the two
  -- pipes, the last line after the second, and exits with the exit code of that end.
  pub run_cli-prints :
      (arg : String) (args : List String) (outs errs : List Read) (rs : List Response)
      → Merge (pump false outs) (pump true errs) rs
      → run_cli exit_line
          (arg ∷ args)
          true
          (stream (map next_frame (rs ++ last_frame how ∷ []) ++ end_of_stream ∷ []))
        ≡ exits (exit_code_of how) (record {
          out = read_bytes outs;
          err = read_bytes errs ++ exit_line (exit_code_of how);
        })
  unfolding run_cli with_stream
  run_cli-prints arg args outs errs rs merged =
      receive_all-frames (pos 0) rs (record { out = []; err = [] })
        (Merge-NotLast merged (pump-NotLast false outs) (pump-NotLast true errs))
      ∙ rw (out_bytes-merged outs errs rs merged, err_bytes-merged outs errs rs merged) refl
