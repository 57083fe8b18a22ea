-- ===== src/Exec/Load/Laws.antt =====
-- adapter/internal/exec/record.go: the output and the validity of a record that is rebuilt from its row.
use microvm_agentic_sandbox.Prelude.{
  ℕ, ◌+◌, ◌≤◌, ◌≡◌, refl, Bool, String, [], ◌∷◌, ◌++◌, append-nil, arith, if◌then◌else◌, Bytes, ℤ,
  pos, Time, length, length-append, ◌%◌, u64_mod,
}
use microvm_agentic_sandbox.Exec.Chunk.{stdout, stderr, Status, running, is_running}
use microvm_agentic_sandbox.Exec.Record.{Env, ExecRecord, output}
use microvm_agentic_sandbox.Exec.Record.Stream.{tag, tagged, length-tag, Numbered, dones}
use microvm_agentic_sandbox.Exec.Record.Invariant.{IsValid}
use microvm_agentic_sandbox.Exec.Load.{new_exec_record_from_db}

module _ (id sandbox_id command cwd : String) (env : Env) (background : Bool) (limit : ℤ) (code : ℤ)
    (truncated : Bool) (reason : String) (started completed_at : Time) where
  abbrev pub rebuilt : Status → Bytes → Bytes → ExecRecord
  rebuilt status out err =
      new_exec_record_from_db id sandbox_id command cwd env background limit status code out err
        truncated reason started completed_at

  -- Whatever the stored status: `Output` of the rebuilt record gives the two stored blobs.
  pub output-loaded :
      (status : Status) (out err : Bytes) → output (rebuilt status out err) ≡ (out, err)
  unfolding new_exec_record_from_db output
  output-loaded running [] [] = refl
  output-loaded _ [] [] = refl
  output-loaded _ (o ∷ out) [] = refl
  output-loaded _ _ _ = refl

  -- Its bytes are those of stdout, then those of stderr.
  tagged-loaded :
      (status : Status) (out err : Bytes)
      → tagged (rebuilt status out err).chunks ≡ tag stdout out ++ tag stderr err
  unfolding new_exec_record_from_db
  tagged-loaded running [] [] = refl
  tagged-loaded running (o ∷ out) [] = refl
  tagged-loaded _ [] [] = refl
  tagged-loaded _ (o ∷ out) [] = simp append-nil
  tagged-loaded _ _ _ = simp append-nil

  bytes-loaded :
      (status : Status) (out err : Bytes)
      → (rebuilt status out err).output_bytes ≡ length out + length err
  unfolding new_exec_record_from_db
  bytes-loaded running [] [] = refl
  bytes-loaded _ [] [] = omega arith
  bytes-loaded _ (o ∷ out) [] = omega arith
  bytes-loaded _ _ _ = omega arith

  Numbered-loaded : (status : Status) (out err : Bytes) → Numbered 0 (rebuilt status out err).chunks
  unfolding new_exec_record_from_db
  Numbered-loaded running [] [] = tt
  Numbered-loaded _ [] [] = omega arith
  Numbered-loaded _ (o ∷ out) [] = omega arith
  Numbered-loaded _ _ _ = omega arith

  next-loaded :
      (status : Status) (out err : Bytes)
      → (rebuilt status out err).next_seq ≡ length (rebuilt status out err).chunks % u64_mod
  unfolding new_exec_record_from_db
  next-loaded running [] [] = refl
  next-loaded _ [] [] = refl
  next-loaded _ (o ∷ out) [] = refl
  next-loaded _ _ _ = refl

  terminal-loaded :
      (status : Status) (out err : Bytes)
      → dones (rebuilt status out err).chunks
        ≡ (if is_running (rebuilt status out err).status then 0 else 1)
  unfolding new_exec_record_from_db
  terminal-loaded running [] [] = refl
  terminal-loaded _ [] [] = refl
  terminal-loaded _ (o ∷ out) [] = refl
  terminal-loaded _ _ _ = refl

  -- For every stored status and blobs that fit the stored limit: the rebuilt record is valid, with
  -- consecutive sequence numbers, the byte count of the blobs, and a terminal chunk exactly when the
  -- stored status is not running.
  pub loaded-IsValid :
      (m : ℕ) (status : Status) (out err : Bytes)
      → limit ≡ pos m
      → length out + length err ≤ m
      → IsValid m (rebuilt status out err)
  loaded-IsValid m status out err e fits = record {
    limit = unfold new_exec_record_from_db in e;
    within = omega (arith, bytes-loaded status out err);
    counted =
        rw (tagged-loaded, length-append, length-tag stdout out, length-tag stderr err)
          (bytes-loaded status out err);
    numbered = Numbered-loaded status out err;
    next = next-loaded status out err;
    terminal = terminal-loaded status out err;
  }
