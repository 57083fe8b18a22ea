-- ===== src/Exec/Record/Output.antt =====
-- What `Output` gives back of the chunks, and what it gives after a series of `Append` calls.
use microvm_agentic_sandbox.Prelude.{
  ℕ, ◌≡◌, refl, ap, ◌∙◌, Bool, true, false, ◌||◌, List, [], ◌∷◌, ◌++◌, append-nil, append_assoc,
  arith, if◌then◌else◌, ltb, Bytes, Time, String, ℤ, pos, length, take, All,
}
use microvm_agentic_sandbox.Exec.Chunk.{ChunkKind, stdout, stderr, done, Chunk}
use microvm_agentic_sandbox.Exec.Record.{
  Env, ExecRecord, clamp_output, new_exec_record, collect, collect_all, output,
}
use microvm_agentic_sandbox.Exec.Record.Stream.{tag, tagged}
use microvm_agentic_sandbox.Exec.Record.Invariant.{IsValid, new_exec_record-IsValid}
use microvm_agentic_sandbox.Exec.Record.Capture.{
  append_all, stream, IsOutput, tagged-append_all, truncated-append_all,
}

abbrev pub same_kind : ChunkKind → ChunkKind → Bool
same_kind stdout stdout = true
same_kind stderr stderr = true
same_kind done done = true
same_kind _ _ = false

-- The bytes of one kind, in their order.
abbrev pub select : ChunkKind → List (ChunkKind × ℕ) → Bytes
select k [] = []
select k ((j, b) ∷ rest) = if same_kind k j then b ∷ select k rest else select k rest

pub select-append :
    (k : ChunkKind) (xs ys : List (ChunkKind × ℕ))
    → select k (xs ++ ys) ≡ select k xs ++ select k ys
select-append k [] ys = refl
select-append k ((j, b) ∷ xs) ys = ground (arith, select-append k xs ys)

pub select-tag :
    (k j : ChunkKind) (b : Bytes) → select k (tag j b) ≡ (if same_kind k j then b else [])
select-tag k j [] = ground arith
select-tag k j (b ∷ bs) = ground (arith, select-tag k j bs)

-- One chunk adds its bytes to the stream of its kind.
collect-select :
    (out err : Bytes) (c : Chunk) (k : ChunkKind)
    → c.kind ≡ k
    → collect (out, err) c
      ≡ (out ++ select stdout (tag c.kind c.payload), err ++ select stderr (tag c.kind c.payload))
unfolding collect
collect-select out err c stdout e = ground (
  arith,
  select-tag stdout c.kind c.payload,
  select-tag stderr c.kind c.payload,
  append-nil out,
  append-nil err,
)
collect-select out err c stderr e = ground (
  arith,
  select-tag stdout c.kind c.payload,
  select-tag stderr c.kind c.payload,
  append-nil out,
  append-nil err,
)
collect-select out err c done e = ground (
  arith,
  select-tag stdout c.kind c.payload,
  select-tag stderr c.kind c.payload,
  append-nil out,
  append-nil err,
)

collect_all-select :
    (out err : Bytes) (cs : List Chunk)
    → collect_all (out, err) cs
      ≡ (out ++ select stdout (tagged cs), err ++ select stderr (tagged cs))
unfolding collect_all
collect_all-select out err [] = simp append-nil
collect_all-select out err (c ∷ cs) =
    ap (λ acc. collect_all acc cs) (collect-select out err c c.kind refl)
    ∙ collect_all-select (out ++ select stdout (tag c.kind c.payload))
        (err ++ select stderr (tag c.kind c.payload)) cs
    ∙ simp (select-append, append_assoc)

-- `Output` gives the bytes of each of the two kinds, in the order of the chunks.
pub output-select :
    (r : ExecRecord) → output r ≡ (select stdout (tagged r.chunks), select stderr (tagged r.chunks))
unfolding output
output-select r = collect_all-select [] [] r.chunks

or-false : (b : Bool) → (b || false) ≡ b
or-false b = ground arith

module _ (id sandbox_id : String) (cmd : List String) (env : Env) (cwd : String) (background : Bool)
    (asked : ℤ) (now : Time) where
  abbrev started : ExecRecord
  started = new_exec_record id sandbox_id cmd env cwd background asked now

  -- For a record that was created with any requested limit, which `clamp_output` turns into m,
  -- and any non-empty pieces of stdout and stderr appended to it: `Output` gives, split by pipe,
  -- exactly the first m bytes of the interleaved output, and the record is flagged as truncated
  -- exactly when there were more than m.
  pub output-append_all :
      (m : ℕ) (xs : List (ChunkKind × Bytes))
      → clamp_output asked ≡ pos m
      → All IsOutput xs
      → (output (append_all xs started)
          ≡ (select stdout (take m (stream xs)), select stderr (take m (stream xs))))
        × ((append_all xs started).truncated ≡ ltb m (length (stream xs)))
  unfolding new_exec_record
  output-append_all m xs e h = (
    output-select (append_all xs started)
        ∙ ap (λ t. (select stdout t, select stderr t)) (tagged-append_all m xs started valid h),
    truncated-append_all m xs started valid h ∙ or-false (ltb m (length (stream xs))),
  )
    where
      valid : IsValid m started
      valid = new_exec_record-IsValid id sandbox_id cmd env cwd background asked now m e
