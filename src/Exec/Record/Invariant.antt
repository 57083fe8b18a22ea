-- ===== src/Exec/Record/Invariant.antt =====
-- adapter/internal/exec/record.go: the invariant of an `ExecRecord`, and what the methods do to it.
use microvm_agentic_sandbox.Prelude.{
  ℕ, ◌%◌, ◌≤◌, ◌<◌, ◌≡◌, refl, sym, Bool, true, false, ◌||◌, leb, List, arith, if◌then◌else◌, Bytes,
  u64_mod, Time, String, ℤ, pos, negsuc, length, length-append, take, length-take, ◌-◌, ◌⊎◌, ltb,
  take_all, Bool-cases, inl, inr,
}
use microvm_agentic_sandbox.Exec.Chunk.{ChunkKind, Status, is_done, is_running}
use microvm_agentic_sandbox.Exec.Channel.{Channel}
use microvm_agentic_sandbox.Exec.Record.{
  ExecRecord, Env, max_output_bytes_hard, clamp_output, new_exec_record, remaining, capture,
  append_within, append_locked, close_out, finish_locked,
}
use microvm_agentic_sandbox.Exec.Record.Stream.{
  tagged, length-tagged_concat, dones-concat, tagged, Numbered, Numbered-concat, dones,
}

-- `m` is the record's limit.
pub record IsValid (m : ℕ) (r : ExecRecord) : Type 0 where
  pub limit : r.max_output_bytes ≡ pos m
  pub within : r.output_bytes ≤ m
  pub counted : r.output_bytes ≡ length (tagged r.chunks)
  pub numbered : Numbered 0 r.chunks
  pub next : r.next_seq ≡ length r.chunks % u64_mod
  pub terminal : dones r.chunks ≡ (if is_running r.status then 0 else 1)

-- Cutting is taking: where the bytes fit, `take` keeps them all.
pub cut-take : (n : ℕ) (b : Bytes) → (if ltb n (length b) then take n b else b) ≡ take n b
cut-take n b = elim (Bool-cases (ltb n (length b))) [
  | inl h ↦ rw h
  | inr h ↦ rw h (sym (take_all n b (ground (arith, h))))
]

-- With limit `m` the locked part either finds the record full, or captures up to what is left.
pub append_locked_cases :
    (m : ℕ) (r : ExecRecord) (kind : ChunkKind) (bytes : Bytes)
    → r.max_output_bytes ≡ pos m
    → ((m ≤ r.output_bytes) × (append_locked kind bytes r ≡ record r { truncated = true }))
      ⊎ ((r.output_bytes < m)
          × (append_locked kind bytes r ≡ capture kind bytes r (m - r.output_bytes)))
unfolding append_locked
append_locked_cases m r kind bytes e =
    rw (e, append_locked, append_within, remaining) (ground arith)

module _ (m : ℕ) (r : ExecRecord) (v : IsValid m r) where
  capture-IsValid :
      (kind : ChunkKind) (bytes : Bytes)
      → is_done kind ≡ false
      → r.output_bytes < m
      → IsValid m (capture kind bytes r (m - r.output_bytes))
  unfolding capture
  capture-IsValid kind bytes k h = record {
    limit = v.limit;
    within = rw (cut-take, length-take) (omega arith);
    counted = rw length-tagged_concat (omega (arith, v.counted));
    numbered = Numbered-concat 0 r.chunks _ v.numbered (omega (arith, v.next));
    next = omega (arith, v.next, length-append {0} r.chunks);
    terminal = rw (dones-concat, k) (omega (arith, v.terminal));
  }

  close_out-IsValid :
      (status : Status) (code : ℤ) (reason : String) (now : Time)
      → is_running r.status ≡ true
      → is_running status ≡ false
      → IsValid m (close_out r status code reason now)
  unfolding close_out
  close_out-IsValid status code reason now e k = record {
    limit = v.limit;
    within = v.within;
    counted = rw length-tagged_concat (omega (arith, v.counted));
    numbered = Numbered-concat 0 r.chunks _ v.numbered (omega (arith, v.next));
    next = omega (arith, v.next, length-append {0} r.chunks);
    terminal = rw (dones-concat, k) (ground (arith, v.terminal));
  }

  pub append_locked-IsValid :
      (kind : ChunkKind) (bytes : Bytes)
      → is_done kind ≡ false
      → IsValid m (append_locked kind bytes r)
  append_locked-IsValid kind bytes k = elim (append_locked_cases m r kind bytes v.limit) [
    | inl (full, e) ↦ rw e (record {
      limit = v.limit;
      within = v.within;
      counted = v.counted;
      numbered = v.numbered;
      next = v.next;
      terminal = v.terminal;
    })
    | inr (room, e) ↦ rw e (capture-IsValid kind bytes k room)
  ]

  pub finish_locked-IsValid :
      (status : Status) (code : ℤ) (reason : String) (now : Time)
      → is_running status ≡ false
      → IsValid m (finish_locked status code reason now r)
  unfolding finish_locked
  finish_locked-IsValid status code reason now k = elim (Bool-cases (is_running r.status)) [
    | inl e ↦ rw e (close_out-IsValid status code reason now e k)
    | inr e ↦ rw e v
  ]

-- What only touches the channels keeps the invariant.
pub subscribers-IsValid :
    (m : ℕ) (r : ExecRecord) (chs : List Channel)
    → IsValid m r
    → IsValid m (record r { subscribers = chs })
subscribers-IsValid m r chs v = record {
  limit = v.limit;
  within = v.within;
  counted = v.counted;
  numbered = v.numbered;
  next = v.next;
  terminal = v.terminal;
}

-- The limit that a new record gets is between 1 and the hard bound, whatever the caller asks.
pub clamp_output_bounds :
    (asked : ℤ) → (m : ℕ) × (clamp_output asked ≡ pos m) × (1 ≤ m) × (m ≤ max_output_bytes_hard)
unfolding clamp_output
clamp_output_bounds (negsuc n) = (max_output_bytes_hard, refl, omega arith, omega arith)
clamp_output_bounds (pos n) = elim (Bool-cases (leb n 0 || ltb max_output_bytes_hard n)) [
  | inl e ↦ (max_output_bytes_hard, rw e, omega arith, omega arith)
  | inr e ↦ (n, rw e, ground (arith, e), ground (arith, e))
]

-- A new record is valid for the limit that `clamp_output` picks.
pub new_exec_record-IsValid :
    (id sandbox_id : String) (cmd : List String) (env : Env) (cwd : String) (background : Bool)
    (asked : ℤ) (now : Time) (m : ℕ)
    → clamp_output asked ≡ pos m
    → IsValid m (new_exec_record id sandbox_id cmd env cwd background asked now)
unfolding new_exec_record
new_exec_record-IsValid id sandbox_id cmd env cwd background asked now m e = record {
  limit = e;
  within = omega arith;
  counted = refl;
  numbered = tt;
  next = refl;
  terminal = refl;
}
