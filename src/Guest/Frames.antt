-- ===== src/Guest/Frames.antt =====
-- The frames of the guest agent, and what the adapter makes of them.
use microvm_agentic_sandbox.Prelude.{
  ℕ, ◌≡◌, refl, ◌∙◌, Bool, true, false, List, [], ◌∷◌, ◌++◌, map, if◌then◌else◌, ltb, length, Bytes,
  Time, All, Bool-cases, inl, inr,
}
use microvm_agentic_sandbox.Exec.Chunk.{completed, is_running}
use microvm_agentic_sandbox.Exec.Registry.{Registry}
use microvm_agentic_sandbox.Api.Drain.{ExecChunk, drain_into_record}
use microvm_agentic_sandbox.Api.Drain.Laws.{ending, stream_ending, drain_into_record-ending}
use microvm_agentic_sandbox.Guest.{Wait, exit_code_of, Response, Read, frame_of, pump, last_frame}

-- What a frame is for the adapter: `Client.Exec` of adapter/internal/agent/client.go.
unfoldable pub received : Response → ExecChunk
received r = record { out = r.out; err = r.err; is_last = r.is_last; exit_code = r.exit_code }

-- Any interleaving of two streams of frames.
pub data Merge : List Response → List Response → List Response → Type 0 where
  empty : Merge [] [] []
  left : (r : Response) {xs ys zs : List Response} → Merge xs ys zs → Merge (r ∷ xs) ys (r ∷ zs)
  right : (r : Response) {xs ys zs : List Response} → Merge xs ys zs → Merge xs (r ∷ ys) (r ∷ zs)

abbrev pub NotLast : List Response → Type 0
NotLast rs = All (λ r. r.is_last ≡ false) rs

frame_of-last : (is_err : Bool) (bytes : Bytes) → (frame_of is_err bytes).is_last ≡ false
frame_of-last true bytes = refl
frame_of-last false bytes = refl

pub pump-NotLast : (is_err : Bool) (reads : List Read) → NotLast (pump is_err reads)
unfolding pump
pump-NotLast is_err [] = tt
pump-NotLast is_err (r ∷ reads) = elim (Bool-cases r.over) [
  | inl e ↦ rw e (framed [] tt)
  | inr e ↦ rw e (framed (pump is_err reads) (pump-NotLast is_err reads))
]
  where
    framed :
        (rest : List Response)
        → NotLast rest
        → NotLast (if ltb 0 (length r.bytes) then frame_of is_err r.bytes ∷ rest else rest)
    framed rest h = elim (Bool-cases (ltb 0 (length r.bytes))) [
      | inl e ↦ rw e (frame_of-last is_err r.bytes, h)
      | inr e ↦ rw e h
    ]

pub Merge-NotLast :
    {xs ys zs : List Response} → Merge xs ys zs → NotLast xs → NotLast ys → NotLast zs
Merge-NotLast empty h k = tt
Merge-NotLast (left r m) (p, h) k = (p, Merge-NotLast m h k)
Merge-NotLast (right r m) h (p, k) = (p, Merge-NotLast m h k)

-- The bytes that a pump reads: those up to the last read.
abbrev pub read_bytes : List Read → Bytes
read_bytes [] = []
read_bytes (r ∷ reads) = r.bytes ++ (if r.over then [] else read_bytes reads)

-- The end that the frames ask for, where only the last one is Done.
pub stream_ending-frames :
    (how : Wait) (rs : List Response)
    → NotLast rs
    → stream_ending (map received (rs ++ last_frame how ∷ []))
      ≡ record { status = completed; exit_code = exit_code_of how; reason = "" }
unfolding received last_frame
stream_ending-frames how [] h = refl
stream_ending-frames how (r ∷ rs) (p, h) = rw p (stream_ending-frames how rs h)

-- From the child to the client: whatever the two pumps read, in whatever order their frames come, and
-- however the child ended, once the adapter has drained the frames into a running exec, the exec is
-- completed with the exit code that the guest agent gives to that end.
pub guest_ending :
    (fault : Bool) (p : ℕ) (now : Time) (s : Registry) (how : Wait) (outs errs : List Read)
    (rs : List Response)
    → Merge (pump false outs) (pump true errs) rs
    → is_running (ending (s.heap p)).status ≡ true
    → ending ((drain_into_record fault p now (map received (rs ++ last_frame how ∷ [])) s).heap p)
      ≡ record { status = completed; exit_code = exit_code_of how; reason = "" }
guest_ending fault p now s how outs errs rs merged on =
    drain_into_record-ending fault p now _ s on
    ∙ stream_ending-frames how rs
        (Merge-NotLast merged (pump-NotLast false outs) (pump-NotLast true errs))
