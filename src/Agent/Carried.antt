-- ===== src/Agent/Carried.antt =====
-- The bytes that the frames of the guest agent carry, on their way to the record of the exec.
use microvm_agentic_sandbox.Prelude.{
  ◌+◌, ◌≡◌, refl, sym, ap, ◌∙◌, true, false, List, [], ◌∷◌, ◌++◌, map, append-nil, append_assoc,
  length, length-append, arith, ltb, if◌then◌else◌, Bytes,
}
use microvm_agentic_sandbox.Exec.Chunk.{stdout, stderr}
use microvm_agentic_sandbox.Exec.Record.Stream.{tag, length-tag}
use microvm_agentic_sandbox.Exec.Record.Output.{select, select-append, select-tag}
use microvm_agentic_sandbox.Api.Drain.Calls.{said_by}
use microvm_agentic_sandbox.Guest.{Response, Read, frame_of, pump}
use microvm_agentic_sandbox.Guest.Frames.{received, Merge, empty, left, right, read_bytes}

abbrev pub out_bytes : List Response → Bytes
out_bytes [] = []
out_bytes (r ∷ rs) = r.out ++ out_bytes rs

abbrev pub err_bytes : List Response → Bytes
err_bytes [] = []
err_bytes (r ∷ rs) = r.err ++ err_bytes rs

pub stdout-said : (rs : List Response) → select stdout (said_by (map received rs)) ≡ out_bytes rs
unfolding received
stdout-said [] = refl
stdout-said (r ∷ rs) = rw (
  select-append stdout (tag stdout r.out ++ tag stderr r.err),
  select-append stdout (tag stdout r.out),
  select-tag stdout stdout r.out,
  select-tag stdout stderr r.err,
  append-nil r.out,
  stdout-said rs,
)

pub stderr-said : (rs : List Response) → select stderr (said_by (map received rs)) ≡ err_bytes rs
unfolding received
stderr-said [] = refl
stderr-said (r ∷ rs) = rw (
  select-append stderr (tag stdout r.out ++ tag stderr r.err),
  select-append stderr (tag stdout r.out),
  select-tag stderr stdout r.out,
  select-tag stderr stderr r.err,
  stderr-said rs,
)

pub length-said :
    (rs : List Response)
    → length (said_by (map received rs)) ≡ length (out_bytes rs) + length (err_bytes rs)
unfolding received
length-said [] = omega arith
length-said (r ∷ rs) = omega (
  arith,
  length-append (tag stdout r.out ++ tag stderr r.err) (said_by (map received rs)),
  length-append (tag stdout r.out) (tag stderr r.err),
  length-tag stdout r.out,
  length-tag stderr r.err,
  length-append r.out (out_bytes rs),
  length-append r.err (err_bytes rs),
  length-said rs,
)

-- Nothing of one pipe is in the frames of the other.
out_bytes-stderr : (reads : List Read) → out_bytes (pump true reads) ≡ []
unfolding pump
out_bytes-stderr [] = refl
out_bytes-stderr (r ∷ reads) = ground (arith, out_bytes-stderr reads)

err_bytes-stdout : (reads : List Read) → err_bytes (pump false reads) ≡ []
unfolding pump
err_bytes-stdout [] = refl
err_bytes-stdout (r ∷ reads) = ground (arith, err_bytes-stdout reads)

-- The frames of a pump carry what it reads.
out_bytes-framed :
    (bytes : Bytes) (rest : List Response)
    → out_bytes (if ltb 0 (length bytes) then frame_of false bytes ∷ rest else rest)
      ≡ bytes ++ out_bytes rest
out_bytes-framed [] rest = refl
out_bytes-framed (b ∷ bytes) rest = ground arith

err_bytes-framed :
    (bytes : Bytes) (rest : List Response)
    → err_bytes (if ltb 0 (length bytes) then frame_of true bytes ∷ rest else rest)
      ≡ bytes ++ err_bytes rest
err_bytes-framed [] rest = refl
err_bytes-framed (b ∷ bytes) rest = ground arith

out_bytes-stdout : (reads : List Read) → out_bytes (pump false reads) ≡ read_bytes reads
unfolding pump
out_bytes-stdout [] = refl
out_bytes-stdout (r ∷ reads) =
    out_bytes-framed r.bytes _ ∙ ap (λ b. r.bytes ++ b) (ground (arith, out_bytes-stdout reads))

err_bytes-stderr : (reads : List Read) → err_bytes (pump true reads) ≡ read_bytes reads
unfolding pump
err_bytes-stderr [] = refl
err_bytes-stderr (r ∷ reads) =
    err_bytes-framed r.bytes _ ∙ ap (λ b. r.bytes ++ b) (ground (arith, err_bytes-stderr reads))

both_nil : (xs ys : Bytes) → xs ++ ys ≡ [] → (xs ≡ []) × (ys ≡ [])
both_nil [] ys h = (refl, h)
both_nil (x ∷ xs) ys h = cc

out_bytes-Merge :
    {xs ys zs : List Response} → Merge xs ys zs → out_bytes ys ≡ [] → out_bytes zs ≡ out_bytes xs
out_bytes-Merge empty h = refl
out_bytes-Merge (left r m) h = ap (λ b. r.out ++ b) (out_bytes-Merge m h)
out_bytes-Merge (right r m) h =
    let (none_here, none_later) = both_nil r.out _ h in rw none_here (out_bytes-Merge m none_later)

err_bytes-Merge :
    {xs ys zs : List Response} → Merge xs ys zs → err_bytes xs ≡ [] → err_bytes zs ≡ err_bytes ys
err_bytes-Merge empty h = refl
err_bytes-Merge (right r m) h = ap (λ b. r.err ++ b) (err_bytes-Merge m h)
err_bytes-Merge (left r m) h =
    let (none_here, none_later) = both_nil r.err _ h in rw none_here (err_bytes-Merge m none_later)

-- What merged frames carry of each pipe, whatever comes after them without bytes.
module _ (outs errs : List Read) (rs : List Response)
    (merged : Merge (pump false outs) (pump true errs) rs) where
  pub out_bytes-merged : out_bytes rs ≡ read_bytes outs
  out_bytes-merged = out_bytes-Merge merged (out_bytes-stderr errs) ∙ out_bytes-stdout outs

  pub err_bytes-merged : err_bytes rs ≡ read_bytes errs
  err_bytes-merged = err_bytes-Merge merged (err_bytes-stdout outs) ∙ err_bytes-stderr errs

pub out_bytes-append : (rs qs : List Response) → out_bytes (rs ++ qs) ≡ out_bytes rs ++ out_bytes qs
out_bytes-append [] qs = refl
out_bytes-append (r ∷ rs) qs =
    ap (λ b. r.out ++ b) (out_bytes-append rs qs) ∙ sym (append_assoc r.out _ _)

pub err_bytes-append : (rs qs : List Response) → err_bytes (rs ++ qs) ≡ err_bytes rs ++ err_bytes qs
err_bytes-append [] qs = refl
err_bytes-append (r ∷ rs) qs =
    ap (λ b. r.err ++ b) (err_bytes-append rs qs) ∙ sym (append_assoc r.err _ _)
