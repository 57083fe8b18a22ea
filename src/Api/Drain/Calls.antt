-- ===== src/Api/Drain/Calls.antt =====
-- adapter/internal/api/exec.go: `drainIntoRecord` as the calls that it makes on the record.
use microvm_agentic_sandbox.Prelude.{
  ℕ, ◌≡◌, refl, sym, ap, ◌∙◌, Bool, true, false, Option, none, some, List, [], ◌∷◌, ◌++◌,
  append_assoc, append-nil, arith, if◌then◌else◌, ltb, length, Bytes, Time, ℤ, negsuc, All,
  All-append,
}
use microvm_agentic_sandbox.Exec.Chunk.{ChunkKind, stdout, stderr, completed, errored}
use microvm_agentic_sandbox.Exec.Record.{complete, fail}
use microvm_agentic_sandbox.Exec.Record.Stream.{tag}
use microvm_agentic_sandbox.Exec.Record.Sends.{Call, appends, finishes, perform, perform_all}
use microvm_agentic_sandbox.Exec.Record.Kept.{perform_all-append}
use microvm_agentic_sandbox.Exec.Record.Refine.{Log, Finish, first, log_call, log_all, IsProper}
use microvm_agentic_sandbox.Exec.Registry.{Registry, finish_and_persist, complete_exec, fail_exec}
use microvm_agentic_sandbox.Api.Drain.{
  ExecChunk, append_exec, append_some, complete_if, drain_one, drain_from, drain_into_record,
}
use microvm_agentic_sandbox.Api.Drain.Laws.{Ending, stream_ending, write_self}

-- The calls for the bytes of one pipe in a frame.
abbrev output_calls : ChunkKind → Bytes → List Call
output_calls kind [] = []
output_calls kind (b ∷ bs) = appends kind (b ∷ bs) ∷ []

abbrev end_calls : Time → Bool → ℤ → List Call
end_calls now true code = finishes completed code "" now ∷ []
end_calls now false code = []

abbrev frame_calls : Time → ExecChunk → List Call
frame_calls now c =
    output_calls stdout c.out ++ (output_calls stderr c.err ++ end_calls now c.is_last c.exit_code)

-- The calls of the whole loop, and of the test after it.
abbrev pub drain_calls : Time → Bool → List ExecChunk → List Call
drain_calls now true [] = []
drain_calls now false [] =
    finishes errored (negsuc 0) "agent stream ended without Done frame" now ∷ []
drain_calls now got_done (c ∷ cs) =
    frame_calls now c ++ drain_calls now (if c.is_last then true else got_done) cs

module _ (fault : Bool) (p : ℕ) (now : Time) where
  append_some-calls :
      (kind : ChunkKind) (bytes : Bytes) (s : Registry)
      → (append_some p kind bytes s).heap p ≡ perform_all (output_calls kind bytes) (s.heap p)
  unfolding append_some append_exec perform_all perform
  append_some-calls kind [] s = refl
  append_some-calls kind (b ∷ bs) s =
      let some_byte : ltb 0 (length (b ∷ bs)) ≡ true = ground arith in
      rw some_byte (write_self p _ s.heap)

  complete_if-calls :
      (last : Bool) (code : ℤ) (s : Registry)
      → (complete_if fault p now last code s).heap p
        ≡ perform_all (end_calls now last code) (s.heap p)
  unfolding complete_if complete_exec complete finish_and_persist perform_all perform
  complete_if-calls true code s = write_self p _ s.heap
  complete_if-calls false code s = refl

  drain_one-calls :
      (c : ExecChunk) (s : Registry)
      → (drain_one fault p now c s).heap p ≡ perform_all (frame_calls now c) (s.heap p)
  unfolding drain_one
  drain_one-calls c s =
      let err_calls = output_calls stderr c.err in
      let last_calls = end_calls now c.is_last c.exit_code in
      complete_if-calls c.is_last c.exit_code _
      ∙ ap (perform_all last_calls) (append_some-calls stderr c.err _)
      ∙ ap (λ r. perform_all last_calls (perform_all err_calls r))
          (append_some-calls stdout c.out s)
      ∙ sym (perform_all-append err_calls last_calls _)
      ∙ sym (perform_all-append (output_calls stdout c.out) (err_calls ++ last_calls) (s.heap p))

  drain_from-calls :
      (got_done : Bool) (cs : List ExecChunk) (s : Registry)
      → (drain_from fault p now got_done cs s).heap p
        ≡ perform_all (drain_calls now got_done cs) (s.heap p)
  unfolding drain_from
  drain_from-calls true [] s = unfold perform_all in refl
  drain_from-calls false [] s =
      unfold fail_exec fail finish_and_persist perform_all perform in write_self p _ s.heap
  drain_from-calls true (c ∷ cs) s =
      drain_from-calls (if c.is_last then true else true) cs (drain_one fault p now c s)
      ∙ ap (perform_all (drain_calls now (if c.is_last then true else true) cs))
          (drain_one-calls c s)
      ∙ sym (perform_all-append (frame_calls now c) _ (s.heap p))
  drain_from-calls false (c ∷ cs) s =
      drain_from-calls (if c.is_last then true else false) cs (drain_one fault p now c s)
      ∙ ap (perform_all (drain_calls now (if c.is_last then true else false) cs))
          (drain_one-calls c s)
      ∙ sym (perform_all-append (frame_calls now c) _ (s.heap p))

  -- The record after the drain is the record after its calls.
  pub drain_into_record-calls :
      (cs : List ExecChunk) (s : Registry)
      → (drain_into_record fault p now cs s).heap p
        ≡ perform_all (drain_calls now false cs) (s.heap p)
  unfolding drain_into_record
  drain_into_record-calls cs s = drain_from-calls false cs s

abbrev is_pipe : ChunkKind → Bool
is_pipe stdout = true
is_pipe stderr = true
is_pipe _ = false

-- Every call is one that the program may make.
output_calls-IsProper :
    (kind : ChunkKind) (bytes : Bytes)
    → is_pipe kind ≡ true
    → All IsProper (output_calls kind bytes)
output_calls-IsProper stdout [] h = tt
output_calls-IsProper stdout (b ∷ bs) h = ((refl, omega arith), tt)
output_calls-IsProper stderr [] h = tt
output_calls-IsProper stderr (b ∷ bs) h = ((refl, omega arith), tt)
output_calls-IsProper _ bytes h = cc

frame_calls-IsProper : (now : Time) (c : ExecChunk) → All IsProper (frame_calls now c)
frame_calls-IsProper now c =
    All-append IsProper (output_calls stdout c.out) _ (output_calls-IsProper stdout c.out refl) (
      All-append IsProper (output_calls stderr c.err) _ (output_calls-IsProper stderr c.err refl)
        (ends c.is_last))
  where
    ends : (last : Bool) → All IsProper (end_calls now last c.exit_code)
    ends true = (refl, tt)
    ends false = tt

pub drain_calls-IsProper :
    (now : Time) (got_done : Bool) (cs : List ExecChunk)
    → All IsProper (drain_calls now got_done cs)
drain_calls-IsProper now true [] = tt
drain_calls-IsProper now false [] = (refl, tt)
drain_calls-IsProper now true (c ∷ cs) =
    All-append IsProper (frame_calls now c) _ (frame_calls-IsProper now c)
      (drain_calls-IsProper now _ cs)
drain_calls-IsProper now false (c ∷ cs) =
    All-append IsProper (frame_calls now c) _ (frame_calls-IsProper now c)
      (drain_calls-IsProper now _ cs)

-- All that the frames say, stdout before stderr within a frame.
abbrev pub said_by : List ExecChunk → List (ChunkKind × ℕ)
said_by [] = []
said_by (c ∷ cs) = (tag stdout c.out ++ tag stderr c.err) ++ said_by cs

-- The end that they ask for, at the time of the drain.
abbrev pub finish_at : Time → Ending → Finish
finish_at now e = record {
  status = e.status;
  exit_code = e.exit_code;
  reason = e.reason;
  time = now;
}

log_all-append : (xs ys : List Call) (l : Log) → log_all (xs ++ ys) l ≡ log_all ys (log_all xs l)
log_all-append [] ys l = refl
log_all-append (c ∷ xs) ys l = log_all-append xs ys (log_call c l)

log_output :
    (kind : ChunkKind) (bytes : Bytes) (l : Log)
    → log_all (output_calls kind bytes) l ≡ record l { said = l.said ++ tag kind bytes }
log_output kind [] l = ap (λ s. record l { said = s }) (sym (append-nil l.said))
log_output kind (b ∷ bs) l = refl

abbrev over_after : Time → Bool → ℤ → Option Finish → Option Finish
over_after now last code o =
    if last
    then first o (record { status = completed; exit_code = code; reason = ""; time = now })
    else o

log_ends :
    (now : Time) (last : Bool) (code : ℤ) (l : Log)
    → log_all (end_calls now last code) l ≡ record l { over = over_after now last code l.over }
log_ends now true code l = refl
log_ends now false code l = refl

log_frame :
    (now : Time) (c : ExecChunk) (l : Log)
    → log_all (frame_calls now c) l ≡ record {
      said = l.said ++ (tag stdout c.out ++ tag stderr c.err);
      over = over_after now c.is_last c.exit_code l.over;
    }
log_frame now c l =
    log_all-append (output_calls stdout c.out) _ l
    ∙ ap (log_all (output_calls stderr c.err ++ end_calls now c.is_last c.exit_code))
        (log_output stdout c.out l)
    ∙ log_all-append (output_calls stderr c.err) _ _
    ∙ ap (log_all (end_calls now c.is_last c.exit_code)) (log_output stderr c.err _)
    ∙ log_ends now c.is_last c.exit_code _
    ∙ ap (λ s. record { said = s; over = over_after now c.is_last c.exit_code l.over })
        (append_assoc l.said (tag stdout c.out) (tag stderr c.err))

-- After an end, more frames only say more.
log_drained :
    (now : Time) (cs : List ExecChunk) (said : List (ChunkKind × ℕ)) (f : Finish)
    → log_all (drain_calls now true cs) (record { said = said; over = some f })
      ≡ record { said = said ++ said_by cs; over = some f }
log_drained now [] said f = ap (λ s. record { said = s; over = some f }) (sym (append-nil said))
log_drained now (c ∷ cs) said f =
    log_all-append (frame_calls now c) _ _
    ∙ ap (log_all (drain_calls now (if c.is_last then true else true) cs)) (log_frame now c _)
    ∙ same c.is_last
    ∙ log_drained now cs _ f
    ∙ ap (λ s. record { said = s; over = some f })
        (append_assoc said (tag stdout c.out ++ tag stderr c.err) (said_by cs))
  where
    same :
        (last : Bool)
        → log_all (drain_calls now (if last then true else true) cs) (record {
          said = said ++ (tag stdout c.out ++ tag stderr c.err);
          over = over_after now last c.exit_code (some f);
        })
          ≡ log_all
              (drain_calls now true cs)
              (record { said = said ++ (tag stdout c.out ++ tag stderr c.err); over = some f })
    same true = refl
    same false = refl

-- What the drain adds to the log of a running exec.
pub log_drain :
    (now : Time) (cs : List ExecChunk) (said : List (ChunkKind × ℕ))
    → log_all (drain_calls now false cs) (record { said = said; over = none })
      ≡ record { said = said ++ said_by cs; over = some (finish_at now (stream_ending cs)) }
log_drain now [] said = ap (λ s. record { said = s; over = some _ }) (sym (append-nil said))
log_drain now (c ∷ cs) said =
    log_all-append (frame_calls now c) _ _
    ∙ ap (log_all (drain_calls now (if c.is_last then true else false) cs)) (log_frame now c _)
    ∙ step c.is_last (log_drain now cs (said ++ (tag stdout c.out ++ tag stderr c.err)))
    ∙ ap (λ s. record { said = s; over = some (finish_at now (stream_ending (c ∷ cs))) })
        (append_assoc said (tag stdout c.out ++ tag stderr c.err) (said_by cs))
  where
    step :
        (last : Bool)
        → log_all
            (drain_calls now false cs)
            (record { said = (said ++ (tag stdout c.out ++ tag stderr c.err)); over = none })
          ≡ record {
            said = (said ++ (tag stdout c.out ++ tag stderr c.err)) ++ said_by cs;
            over = some (finish_at now (stream_ending cs));
          }
        → log_all (drain_calls now (if last then true else false) cs) (record {
          said = said ++ (tag stdout c.out ++ tag stderr c.err);
          over = over_after now last c.exit_code none;
        })
          ≡ record {
            said = (said ++ (tag stdout c.out ++ tag stderr c.err)) ++ said_by cs;
            over = some (
                finish_at now (
                  if last
                  then record { status = completed; exit_code = c.exit_code; reason = "" }
                  else stream_ending cs));
          }
    step true rest = log_drained now cs _ _
    step false rest = rest
