-- ===== src/Api/Drain/Laws.antt =====
-- How a drained exec ends.
use microvm_agentic_sandbox.Prelude.{
  ℕ, ◌≡◌, refl, sym, ap, ◌∙◌, String, Bool, true, false, ltb, if◌then◌else◌, List, [], ◌∷◌, ℤ, pos,
  zero, suc, negsuc, Bytes, Time, length, arith, Bool-cases, inl, inr,
}
use microvm_agentic_sandbox.Exec.Chunk.{
  ChunkKind, stdout, stderr, Status, completed, errored, is_running,
}
use microvm_agentic_sandbox.Exec.Record.{
  ExecRecord, capture, append_within, append_locked, finish_locked, fan_out, append, finish,
  complete, fail,
}
use microvm_agentic_sandbox.Exec.Registry.{
  Registry, write, finish_and_persist, complete_exec, fail_exec,
}
use microvm_agentic_sandbox.Api.Drain.{
  ExecChunk, append_exec, append_some, complete_if, drain_one, drain_from, drain_into_record,
}

-- The end of an exec as a client sees it.
pub record Ending : Type 0 where
  pub status : Status
  pub exit_code : ℤ
  pub reason : String

abbrev pub ending : ExecRecord → Ending
ending r = record { status = r.status; exit_code = r.exit_code; reason = r.completion_err }

ending-append_within :
    (kind : ChunkKind) (bytes : Bytes) (r : ExecRecord) (left : ℤ)
    → ending (fan_out (append_within kind bytes r left)) ≡ ending r
unfolding fan_out append_within capture
ending-append_within kind bytes r (pos (suc n)) = refl
ending-append_within kind bytes r (pos zero) = refl
ending-append_within kind bytes r (negsuc n) = refl

ending-append :
    (kind : ChunkKind) (bytes : Bytes) (r : ExecRecord) → ending (append kind bytes r) ≡ ending r
unfolding append append_locked
ending-append kind bytes r = ending-append_within kind bytes r _

-- The first end counts; later ones change nothing.
abbrev ended : Status → ℤ → String → Ending → Ending
ended status code reason e =
    if is_running e.status then record { status = status; exit_code = code; reason = reason } else e

ending-finish :
    (status : Status) (code : ℤ) (reason : String) (now : Time) (r : ExecRecord)
    → ending (finish status code reason now r) ≡ ended status code reason (ending r)
unfolding finish finish_locked fan_out
ending-finish status code reason now r = elim (Bool-cases (is_running r.status)) [
  | inl e ↦ rw e
  | inr e ↦ rw e
]

pub write_self : (p : ℕ) (r : ExecRecord) (heap : ℕ → ExecRecord) → write p r heap p ≡ r
write_self p r heap = ground arith

-- The end that the frames of the stream ask for: the first Done frame, or its absence.
abbrev pub stream_ending : List ExecChunk → Ending
stream_ending [] = record {
  status = errored;
  exit_code = negsuc 0;
  reason = "agent stream ended without Done frame";
}
stream_ending (c ∷ cs) =
    if c.is_last
    then record { status = completed; exit_code = c.exit_code; reason = "" }
    else stream_ending cs

module _ (fault : Bool) (p : ℕ) (now : Time) where
  -- The record at the pointer.
  abbrev at_p : Registry → Ending
  at_p s = ending (s.heap p)

  append_exec-ending :
      (kind : ChunkKind) (bytes : Bytes) (s : Registry) → at_p (append_exec p kind bytes s) ≡ at_p s
  unfolding append_exec
  append_exec-ending kind bytes s =
      ap ending (write_self p (append kind bytes (s.heap p)) s.heap)
      ∙ ending-append kind bytes (s.heap p)

  append_some-ending :
      (kind : ChunkKind) (bytes : Bytes) (s : Registry) → at_p (append_some p kind bytes s) ≡ at_p s
  unfolding append_some
  append_some-ending kind bytes s = elim (Bool-cases (ltb 0 (length bytes))) [
    | inl e ↦ rw e (append_exec-ending kind bytes s)
    | inr e ↦ rw e
  ]

  complete_exec-ending :
      (code : ℤ) (s : Registry)
      → at_p (complete_exec fault p code now s) ≡ ended completed code "" (at_p s)
  unfolding complete_exec complete finish_and_persist
  complete_exec-ending code s =
      ap ending (write_self p (complete code now (s.heap p)) s.heap)
      ∙ ending-finish completed code "" now (s.heap p)

  fail_exec-ending :
      (code : ℤ) (reason : String) (s : Registry)
      → at_p (fail_exec fault p code reason now s) ≡ ended errored code reason (at_p s)
  unfolding fail_exec fail finish_and_persist
  fail_exec-ending code reason s =
      ap ending (write_self p (fail code reason now (s.heap p)) s.heap)
      ∙ ending-finish errored code reason now (s.heap p)

  drain_one-ending :
      (c : ExecChunk) (s : Registry)
      → at_p (drain_one fault p now c s)
        ≡ (if c.is_last then ended completed c.exit_code "" (at_p s) else at_p s)
  unfolding drain_one complete_if
  drain_one-ending c s =
      let s' = append_some p stderr c.err (append_some p stdout c.out s) in
      let same : at_p s' ≡ at_p s =
        append_some-ending stderr c.err _ ∙ append_some-ending stdout c.out s in
      elim (Bool-cases c.is_last) [
        | inl e ↦
            rw e (complete_exec-ending c.exit_code s' ∙ ap (ended completed c.exit_code "") same)
        | inr e ↦ rw e same
      ]

  ended-over :
      (status : Status) (code : ℤ) (reason : String) (e : Ending)
      → is_running e.status ≡ false
      → ended status code reason e ≡ e
  ended-over status code reason e over = rw over

  ended-running :
      (status : Status) (code : ℤ) (reason : String) (e : Ending)
      → is_running e.status ≡ true
      → ended status code reason e ≡ record { status = status; exit_code = code; reason = reason }
  ended-running status code reason e on = rw on

  drain_one-over :
      (c : ExecChunk) (s : Registry)
      → is_running (at_p s).status ≡ false
      → at_p (drain_one fault p now c s) ≡ at_p s
  drain_one-over c s over = drain_one-ending c s ∙ elim (Bool-cases c.is_last) [
    | inl e ↦ rw e (ended-over completed c.exit_code "" (at_p s) over)
    | inr e ↦ rw e
  ]

  drain_one-last :
      (c : ExecChunk) (s : Registry)
      → c.is_last ≡ true
      → is_running (at_p s).status ≡ true
      → at_p (drain_one fault p now c s)
        ≡ record { status = completed; exit_code = c.exit_code; reason = "" }
  drain_one-last c s e on =
      drain_one-ending c s ∙ rw e (ended-running completed c.exit_code "" (at_p s) on)

  drain_one-more :
      (c : ExecChunk) (s : Registry) → c.is_last ≡ false → at_p (drain_one fault p now c s) ≡ at_p s
  drain_one-more c s e = drain_one-ending c s ∙ rw e

  still : (b : Bool) → (if b then true else true) ≡ true
  still true = refl
  still false = refl

  -- Once an exec has ended, no more frames change its end.
  drained-stays :
      (cs : List ExecChunk) (s : Registry)
      → is_running (at_p s).status ≡ false
      → at_p (drain_from fault p now true cs s) ≡ at_p s
  unfolding drain_from
  drained-stays [] s over = refl
  drained-stays (c ∷ cs) s over =
      let next = drain_one fault p now c s in
      let over' : is_running (at_p next).status ≡ false =
        ap (λ e. is_running e.status) (drain_one-over c s over) ∙ over in
      ap (λ g. at_p (drain_from fault p now g cs next)) (still c.is_last)
      ∙ drained-stays cs next over'
      ∙ drain_one-over c s over

  abbrev chosen : Bool → ExecChunk → List ExecChunk → Ending
  chosen g c cs =
      if g
      then record { status = completed; exit_code = c.exit_code; reason = "" }
      else stream_ending cs

  drained :
      (cs : List ExecChunk) (s : Registry)
      → is_running (at_p s).status ≡ true
      → at_p (drain_from fault p now false cs s) ≡ stream_ending cs
  unfolding drain_from
  drained [] s on =
      fail_exec-ending (negsuc 0) "agent stream ended without Done frame" s
      ∙ ended-running errored (negsuc 0) "agent stream ended without Done frame" (at_p s) on
  drained (c ∷ cs) s on =
      let next = drain_one fault p now c s in
      elim (Bool-cases c.is_last) [
        | inl e ↦
            let last = drain_one-last c s e on in
            ap (λ g. at_p (drain_from fault p now (if g then true else false) cs next)) e
            ∙ drained-stays cs next (ap (λ x. is_running x.status) last)
            ∙ last
            ∙ sym (ap (λ g. chosen g c cs) e)
        | inr e ↦
            ap (λ g. at_p (drain_from fault p now (if g then true else false) cs next)) e
            ∙ drained cs next (ap (λ x. is_running x.status) (drain_one-more c s e) ∙ on)
            ∙ sym (ap (λ g. chosen g c cs) e)
      ]

  -- For every list of frames from the agent, and whatever the database does: an exec that runs when
  -- the drain begins has ended when it returns: completed with the exit code of the first Done frame,
  -- or, if no frame was Done, errored with exit code -1 and the reason that the stream ended.
  pub drain_into_record-ending :
      (cs : List ExecChunk) (s : Registry)
      → is_running (at_p s).status ≡ true
      → at_p (drain_into_record fault p now cs s) ≡ stream_ending cs
  unfolding drain_into_record
  drain_into_record-ending cs s on = drained cs s on
