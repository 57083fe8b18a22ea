-- ===== src/Exec/Record/Refine.antt =====
-- adapter/internal/exec/record.go: what a record promises, as a log of everything that the process
-- said and of its first end, and how a record stands for such a log.
use Prim.Native.Nat.{min}
use microvm_agentic_sandbox.Prelude.{
  ℕ, zero, suc, take_all, ◌+◌, ◌≡◌, refl, sym, ap, ◌∙◌, Bool, false, ◌||◌, Option, none, some, List,
  [], ◌∷◌, ◌++◌, append-nil, arith, if◌then◌else◌, ltb, Bytes, Time, String, ℤ, pos, negsuc, length,
  take, take-take_append, length-append, length-take, All, Bool-cases, inl, inr,
}
use microvm_agentic_sandbox.Exec.Chunk.{ChunkKind, stdout, stderr, Status, is_running}
use microvm_agentic_sandbox.Exec.Record.{
  Env, ExecRecord, capture, append_within, append_locked, finish_locked, close_out, fan_out, append,
  finish, subscribe, cancel, output, clamp_output, new_exec_record,
}
use microvm_agentic_sandbox.Exec.Record.Stream.{tag, tagged, tagged-concat}
use microvm_agentic_sandbox.Exec.Record.Invariant.{
  IsValid, subscribers-IsValid, finish_locked-IsValid, new_exec_record-IsValid,
}
use microvm_agentic_sandbox.Exec.Record.Capture.{
  IsOutput, tagged-append, truncated-append, append-IsValid,
}
use microvm_agentic_sandbox.Exec.Record.Output.{select, output-select}
use microvm_agentic_sandbox.Exec.Record.Steps.{receive_at}
use microvm_agentic_sandbox.Exec.Record.Sends.{
  Call, appends, finishes, subscribes, cancels, receives, perform, perform_all,
}

pub record Finish : Type 0 where
  pub status : Status
  pub exit_code : ℤ
  pub reason : String
  pub time : Time

-- Everything that was said, with no limit, and the first end.
pub record Log : Type 0 where
  pub said : List (ChunkKind × ℕ)
  pub over : Option Finish

abbrev pub first : Option Finish → Finish → Option Finish
first none f = some f
first (some g) f = some g

abbrev pub log_call : Call → Log → Log
log_call (appends kind bytes) l = record l { said = l.said ++ tag kind bytes }
log_call (finishes status code reason now) l = record l {
  over = first l.over (record { status = status; exit_code = code; reason = reason; time = now });
}
log_call (subscribes from_seq) l = l
log_call (cancels i) l = l
log_call (receives i) l = l

abbrev pub log_all : List Call → Log → Log
log_all [] l = l
log_all (c ∷ cs) l = log_all cs (log_call c l)

-- The end that a record shows.
abbrev pub finish_of : ExecRecord → Option Finish
finish_of r =
    if is_running r.status
    then none
    else some (record {
      status = r.status;
      exit_code = r.exit_code;
      reason = r.completion_err;
      time = r.completed_at;
    })

-- The record keeps the first `m` bytes of what was said, knows whether there were more, and shows the
-- end.
pub record Represents (m : ℕ) (r : ExecRecord) (l : Log) : Type 0 where
  pub valid : IsValid m r
  pub bytes : tagged r.chunks ≡ take m l.said
  pub cut : r.truncated ≡ ltb m (length l.said)
  pub over : finish_of r ≡ l.over

-- Calls as the program makes them: output is not empty and of a pipe, an end is an end.
abbrev pub IsProper : Call → Type 0
IsProper (appends kind bytes) = IsOutput (kind, bytes)
IsProper (finishes status code reason now) = is_running status ≡ false
IsProper (subscribes from_seq) = Unit
IsProper (cancels i) = Unit
IsProper (receives i) = Unit

finish_of-within :
    (kind : ChunkKind) (bytes : Bytes) (r : ExecRecord) (left : ℤ)
    → finish_of (fan_out (append_within kind bytes r left)) ≡ finish_of r
unfolding fan_out append_within capture
finish_of-within kind bytes r (pos zero) = refl
finish_of-within kind bytes r (pos (suc n)) = refl
finish_of-within kind bytes r (negsuc n) = refl

cut_more : (m n s : ℕ) (t : Bool) → t ≡ ltb m n → (ltb m (min m n + s) || t) ≡ ltb m (n + s)
cut_more m n s t h = ground arith

module _ (m : ℕ) (r : ExecRecord) (l : Log) (h : Represents m r l) where
  append-Represents :
      (kind : ChunkKind) (bytes : Bytes)
      → IsOutput (kind, bytes)
      → Represents m (append kind bytes r) (log_call (appends kind bytes) l)
  append-Represents kind bytes (k, some_byte) = record {
    valid = append-IsValid m r kind bytes k h.valid;
    bytes =
        tagged-append m r kind bytes h.valid
        ∙ ap (λ t. take m (t ++ tag kind bytes)) h.bytes
        ∙ take-take_append m l.said (tag kind bytes);
    cut =
        truncated-append m r kind bytes h.valid some_byte
        ∙ ap (λ t. ltb m (length (t ++ tag kind bytes)) || r.truncated) h.bytes
        ∙ rw
            (
              length-append (take m l.said) (tag kind bytes),
              length-take m l.said,
              length-append l.said (tag kind bytes),
            )
            (cut_more m (length l.said) (length (tag kind bytes)) r.truncated h.cut);
    over = unfold append append_locked in (finish_of-within kind bytes r _ ∙ h.over);
  }

  finish-over :
      (status : Status) (code : ℤ) (reason : String) (now : Time)
      → is_running status ≡ false
      → finish_of (finish status code reason now r)
        ≡ first
            (finish_of r)
            (record { status = status; exit_code = code; reason = reason; time = now })
  unfolding finish finish_locked fan_out close_out
  finish-over status code reason now k = elim (Bool-cases (is_running r.status)) [
    | inl e ↦ rw (e, k) refl
    | inr e ↦ rw (e, e) refl
  ]

  finish-tagged :
      (status : Status) (code : ℤ) (reason : String) (now : Time)
      → (tagged (finish status code reason now r).chunks ≡ tagged r.chunks)
        × ((finish status code reason now r).truncated ≡ r.truncated)
  unfolding finish finish_locked fan_out close_out
  finish-tagged status code reason now = elim (Bool-cases (is_running r.status)) [
    | inl e ↦ rw e (tagged-concat r.chunks _ ∙ append-nil _, refl)
    | inr e ↦ rw e (refl, refl)
  ]

  finish-Represents :
      (status : Status) (code : ℤ) (reason : String) (now : Time)
      → is_running status ≡ false
      → Represents m
          (finish status code reason now r)
          (log_call (finishes status code reason now) l)
  finish-Represents status code reason now k =
      let (same_bytes, same_cut) = finish-tagged status code reason now in
      record {
        valid =
            unfold finish fan_out in
            subscribers-IsValid m _ _ (finish_locked-IsValid m r h.valid status code reason now k);
        bytes = same_bytes ∙ h.bytes;
        cut = same_cut ∙ h.cut;
        over =
            finish-over status code reason now k
            ∙ ap
                (λ o.
                  first o
                    (record { status = status; exit_code = code; reason = reason; time = now }))
                h.over;
      }

  pub perform-Represents : (c : Call) → IsProper c → Represents m (perform c r) (log_call c l)
  unfolding perform subscribe cancel receive_at
  perform-Represents (appends kind bytes) p = append-Represents kind bytes p
  perform-Represents (finishes status code reason now) p =
      finish-Represents status code reason now p
  perform-Represents (subscribes from_seq) p = record {
    valid = subscribers-IsValid m r _ h.valid;
    bytes = h.bytes;
    cut = h.cut;
    over = h.over;
  }
  perform-Represents (cancels i) p = record {
    valid = subscribers-IsValid m r _ h.valid;
    bytes = h.bytes;
    cut = h.cut;
    over = h.over;
  }
  perform-Represents (receives i) p = record {
    valid = subscribers-IsValid m r _ h.valid;
    bytes = h.bytes;
    cut = h.cut;
    over = h.over;
  }

-- Refinement: where a record represents a log, then after any sequence of whole method calls it
-- represents the log after the same calls, in which nothing is cut and subscribers do not occur. The
-- output that is appended must be not empty and of a pipe, and an end must not be the status running.
pub perform_all-Represents :
    (cs : List Call) (m : ℕ) (r : ExecRecord) (l : Log)
    → Represents m r l
    → All IsProper cs
    → Represents m (perform_all cs r) (log_all cs l)
unfolding perform_all
perform_all-Represents [] m r l h p = h
perform_all-Represents (c ∷ cs) m r l h (p, ps) =
    perform_all-Represents cs m (perform c r) (log_call c l) (perform-Represents m r l h c p) ps

-- What `Output` gives of a record that represents a log.
pub output-Represents :
    (m : ℕ) (r : ExecRecord) (l : Log)
    → Represents m r l
    → output r ≡ (select stdout (take m l.said), select stderr (take m l.said))
output-Represents m r l h = output-select r ∙ ap (λ t. (select stdout t, select stderr t)) h.bytes

-- the log of an exec that has said nothing
abbrev pub empty_log : Log
empty_log = record { said = []; over = none }

pub new_exec_record-Represents :
    (id sandbox_id : String) (cmd : List String) (env : Env) (cwd : String) (background : Bool)
    (asked : ℤ) (now : Time) (m : ℕ)
    → clamp_output asked ≡ pos m
    → Represents m (new_exec_record id sandbox_id cmd env cwd background asked now) empty_log
unfolding new_exec_record
new_exec_record-Represents id sandbox_id cmd env cwd background asked now m e = record {
  valid = new_exec_record-IsValid id sandbox_id cmd env cwd background asked now m e;
  bytes = sym (take_all m [] (omega arith));
  cut = ground arith;
  over = refl;
}
