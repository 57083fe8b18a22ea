-- ===== src/Exec/Record/Capture.antt =====
-- What a series of `Append` calls keeps of the output of the process.
use Prim.Native.Nat.{min}
use microvm_agentic_sandbox.Prelude.{
  ℕ, ◌+◌, ◌-◌, ◌≤◌, ◌<◌, ◌≡◌, sym, ap, ◌∙◌, Bool, false, ◌||◌, List, [], ◌∷◌, ◌++◌, append-nil,
  append_assoc, arith, ltb, Bytes, length, take, take-append_left, take-append_right, take_all,
  take-take_append, length-append, length-take, All, inl, inr,
}
use microvm_agentic_sandbox.Exec.Chunk.{ChunkKind, is_done}
use microvm_agentic_sandbox.Exec.Record.{ExecRecord, capture, append_locked, fan_out, append}
use microvm_agentic_sandbox.Exec.Record.Stream.{tag, tagged, tagged-concat, tag-take, length-tag}
use microvm_agentic_sandbox.Exec.Record.Invariant.{
  IsValid, append_locked_cases, append_locked-IsValid, subscribers-IsValid, cut-take,
}

-- What the agent's stream pump appends, call after call.
abbrev pub append_all : List (ChunkKind × Bytes) → ExecRecord → ExecRecord
append_all [] r = r
append_all ((kind, bytes) ∷ rest) r = append_all rest (append kind bytes r)

-- The whole output of the process, in the order of arrival.
abbrev pub stream : List (ChunkKind × Bytes) → List (ChunkKind × ℕ)
stream [] = []
stream ((kind, bytes) ∷ rest) = tag kind bytes ++ stream rest

-- A piece of output as the pump hands it over: of one of the two pipes, and not empty.
abbrev pub IsOutput : ChunkKind × Bytes → Type 0
IsOutput (kind, bytes) = (is_done kind ≡ false) × (1 ≤ length bytes)

-- What was cut before, or is cut now, is what does not fit in all.
truncate_step :
    (m n s : ℕ) (t : Bool) → (ltb m (min m n + s) || (ltb m n || t)) ≡ (ltb m (n + s) || t)
truncate_step m n s t = ground arith

module _ (m : ℕ) where
  captured-take :
      (r : ExecRecord) (kind : ChunkKind) (bytes : Bytes)
      → IsValid m r
      → r.output_bytes < m
      → tagged (capture kind bytes r (m - r.output_bytes)).chunks
        ≡ take m (tagged r.chunks ++ tag kind bytes)
  unfolding capture
  captured-take r kind bytes v room =
      rw (tagged-concat, cut-take, tag-take kind (m - r.output_bytes) bytes)
        (sym (take-append_right (m - r.output_bytes) (tagged r.chunks) (tag kind bytes))
          ∙ ap (λ k. take k (tagged r.chunks ++ tag kind bytes)) (omega (arith, v.counted)))

  captured-truncated :
      (r : ExecRecord) (kind : ChunkKind) (bytes : Bytes)
      → IsValid m r
      → r.output_bytes < m
      → (capture kind bytes r (m - r.output_bytes)).truncated
        ≡ (ltb m (length (tagged r.chunks ++ tag kind bytes)) || r.truncated)
  unfolding capture
  captured-truncated r kind bytes v room =
      rw (length-append (tagged r.chunks) (tag kind bytes), length-tag kind bytes)
        (ground (arith, v.counted))

  -- One call adds to the bytes what still fits below the limit.
  tagged-append_locked :
      (r : ExecRecord) (kind : ChunkKind) (bytes : Bytes)
      → IsValid m r
      → tagged (append_locked kind bytes r).chunks ≡ take m (tagged r.chunks ++ tag kind bytes)
  tagged-append_locked r kind bytes v = elim (append_locked_cases m r kind bytes v.limit) [
    | inl (full, e) ↦ rw e (
        sym (
          take-append_left m (tagged r.chunks) (tag kind bytes) (omega (arith, v.counted))
          ∙ take_all m (tagged r.chunks) (omega (arith, v.counted))))
    | inr (room, e) ↦ rw e (captured-take r kind bytes v room)
  ]

  truncated-append_locked :
      (r : ExecRecord) (kind : ChunkKind) (bytes : Bytes)
      → IsValid m r
      → 1 ≤ length bytes
      → (append_locked kind bytes r).truncated
        ≡ (ltb m (length (tagged r.chunks ++ tag kind bytes)) || r.truncated)
  truncated-append_locked r kind bytes v h = elim (append_locked_cases m r kind bytes v.limit) [
    | inl (full, e) ↦ rw e (
        ground (
          arith,
          v.counted,
          length-append (tagged r.chunks) (tag kind bytes),
          length-tag kind bytes,
        ))
    | inr (room, e) ↦ rw e (captured-truncated r kind bytes v room)
  ]

  pub tagged-append :
      (r : ExecRecord) (kind : ChunkKind) (bytes : Bytes)
      → IsValid m r
      → tagged (append kind bytes r).chunks ≡ take m (tagged r.chunks ++ tag kind bytes)
  unfolding append fan_out
  tagged-append r kind bytes v = tagged-append_locked r kind bytes v

  pub truncated-append :
      (r : ExecRecord) (kind : ChunkKind) (bytes : Bytes)
      → IsValid m r
      → 1 ≤ length bytes
      → (append kind bytes r).truncated
        ≡ (ltb m (length (tagged r.chunks ++ tag kind bytes)) || r.truncated)
  unfolding append fan_out
  truncated-append r kind bytes v h = truncated-append_locked r kind bytes v h

  pub append-IsValid :
      (r : ExecRecord) (kind : ChunkKind) (bytes : Bytes)
      → is_done kind ≡ false
      → IsValid m r
      → IsValid m (append kind bytes r)
  unfolding append fan_out
  append-IsValid r kind bytes k v =
      subscribers-IsValid m _ _ (append_locked-IsValid m r v kind bytes k)

  -- After any number of calls the bytes recorded are the first `m` of what came.
  pub tagged-append_all :
      (xs : List (ChunkKind × Bytes)) (r : ExecRecord)
      → IsValid m r
      → All IsOutput xs
      → tagged (append_all xs r).chunks ≡ take m (tagged r.chunks ++ stream xs)
  tagged-append_all [] r v h = rw append-nil (sym (take_all m _ (omega (arith, v.counted))))
  tagged-append_all ((kind, bytes) ∷ rest) r v ((k, _), h) =
      tagged-append_all rest (append kind bytes r) (append-IsValid r kind bytes k v) h
      ∙ ap (λ t. take m (t ++ stream rest)) (tagged-append r kind bytes v)
      ∙ take-take_append m (tagged r.chunks ++ tag kind bytes) (stream rest)
      ∙ ap (take m) (append_assoc (tagged r.chunks) (tag kind bytes) (stream rest))

  pub truncated-append_all :
      (xs : List (ChunkKind × Bytes)) (r : ExecRecord)
      → IsValid m r
      → All IsOutput xs
      → (append_all xs r).truncated ≡ (ltb m (length (tagged r.chunks ++ stream xs)) || r.truncated)
  truncated-append_all [] r v h = rw append-nil (ground (arith, v.counted))
  truncated-append_all ((kind, bytes) ∷ rest) r v ((k, some_byte), h) =
      truncated-append_all rest (append kind bytes r) (append-IsValid r kind bytes k v) h
      ∙ ap (λ t. ltb m (length (t ++ stream rest)) || (append kind bytes r).truncated)
          (tagged-append r kind bytes v)
      ∙ ap (λ t. ltb m (length (take m (tagged r.chunks ++ tag kind bytes) ++ stream rest)) || t)
          (truncated-append r kind bytes v some_byte)
      ∙ ap (λ n. ltb m n || (ltb m (length (tagged r.chunks ++ tag kind bytes)) || r.truncated))
          (length-append (take m (tagged r.chunks ++ tag kind bytes)) (stream rest)
            ∙ ap (λ n. n + length (stream rest))
                (length-take m (tagged r.chunks ++ tag kind bytes)))
      ∙ truncate_step m (length (tagged r.chunks ++ tag kind bytes)) (length (stream rest))
          r.truncated
      ∙ ap (λ n. ltb m n || r.truncated)
          (sym (length-append (tagged r.chunks ++ tag kind bytes) (stream rest))
            ∙ ap length (append_assoc (tagged r.chunks) (tag kind bytes) (stream rest)))
