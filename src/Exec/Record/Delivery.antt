-- ===== src/Exec/Record/Delivery.antt =====
-- adapter/internal/exec/record.go: validity and delivery under the interleavings of a record.
use microvm_agentic_sandbox.Prelude.{
  ℕ, zero, suc, ◌+◌, ◌≤◌, ◌≡◌, none, List, [], ◌∷◌, ◌++◌, Bytes, ℤ, pos, negsuc, Time, String,
  arith, u64_mod, length, All, All-append, All-modify, All-weaken, Subseq, nil, skip, both,
  Bool-cases, inl, inr,
}
use microvm_agentic_sandbox.Exec.Chunk.{ChunkKind, Status, Chunk, is_running}
use microvm_agentic_sandbox.Exec.Channel.{Channel, publish, deliver, receive, unsubscribe}
use microvm_agentic_sandbox.Exec.Record.{
  ExecRecord, remaining, capture, append_within, append_locked, close_out, finish_locked, subscribe,
  cancel,
}
use microvm_agentic_sandbox.Exec.Record.Stream.{Numbered}
use microvm_agentic_sandbox.Exec.Record.Invariant.{
  IsValid, append_locked-IsValid, finish_locked-IsValid, subscribers-IsValid,
}
use microvm_agentic_sandbox.Exec.Record.Steps.{
  Step, emit, close, send, join, leave, read, Reach, here, next, IsSettled, deliver_at, receive_at,
}
use microvm_agentic_sandbox.Exec.Record.Heard.{
  got, Heard, got-Subseq, owe-Heard, deliver-Heard, unsubscribe-Heard, receive-Heard,
  open_channel-Heard,
}

abbrev pub AllHeard : ExecRecord → Type 0
AllHeard r = All (Heard r.chunks) r.subscribers

publish-AllHeard :
    (cs : List Chunk) (c : Chunk) (chs : List Channel)
    → All (λ ch. ch.owed ≡ none) chs
    → All (Heard cs) chs
    → All (Heard (cs ++ c ∷ [])) (publish c chs)
publish-AllHeard cs c [] s h = tt
publish-AllHeard cs c (ch ∷ chs) (e, s) (p, h) =
    (owe-Heard cs c ch e p, publish-AllHeard cs c chs s h)

append_within-AllHeard :
    (kind : ChunkKind) (bytes : Bytes) (r : ExecRecord) (left : ℤ)
    → IsSettled r
    → AllHeard r
    → AllHeard (append_within kind bytes r left)
unfolding append_within capture
append_within-AllHeard kind bytes r (pos (suc n)) s h =
    publish-AllHeard r.chunks _ r.subscribers s h
append_within-AllHeard kind bytes r (pos zero) s h = h
append_within-AllHeard kind bytes r (negsuc n) s h = h

finish_locked-AllHeard :
    (status : Status) (code : ℤ) (reason : String) (now : Time) (r : ExecRecord)
    → IsSettled r
    → AllHeard r
    → AllHeard (finish_locked status code reason now r)
unfolding finish_locked close_out
finish_locked-AllHeard status code reason now r s h = elim (Bool-cases (is_running r.status)) [
  | inl e ↦ rw e (publish-AllHeard r.chunks _ r.subscribers s h)
  | inr e ↦ rw e h
]

Step-AllHeard : {r u : ExecRecord} → Step r u → AllHeard r → AllHeard u
unfolding append_locked subscribe cancel deliver_at receive_at
Step-AllHeard (emit r kind bytes k s) h =
    append_within-AllHeard kind bytes r (remaining r.max_output_bytes r.output_bytes) s h
Step-AllHeard (close r status code reason now k s) h =
    finish_locked-AllHeard status code reason now r s h
Step-AllHeard (send r i) h = All-modify _ deliver (deliver-Heard r.chunks) i r.subscribers h
Step-AllHeard (join r from_seq) h =
    All-append _ r.subscribers _ h (open_channel-Heard from_seq r, tt)
Step-AllHeard (leave r i) h =
    All-modify _ unsubscribe (unsubscribe-Heard r.chunks) i r.subscribers h
Step-AllHeard (read r i) h = All-modify _ receive (receive-Heard r.chunks) i r.subscribers h

Step-IsValid : {m : ℕ} {r u : ExecRecord} → Step r u → IsValid m r → IsValid m u
unfolding subscribe cancel deliver_at receive_at
Step-IsValid {m} (emit r kind bytes k s) v = append_locked-IsValid m r v kind bytes k
Step-IsValid {m} (close r status code reason now k s) v =
    finish_locked-IsValid m r v status code reason now k
Step-IsValid {m} (send r i) v = subscribers-IsValid m r _ v
Step-IsValid {m} (join r from_seq) v = subscribers-IsValid m r _ v
Step-IsValid {m} (leave r i) v = subscribers-IsValid m r _ v
Step-IsValid {m} (read r i) v = subscribers-IsValid m r _ v

-- The invariant holds in every state that any interleaving of the producer, the subscribers and
-- their readers reaches from a valid record: numbering, byte count within the limit, and exactly one
-- terminal chunk once the exec has ended, none before.
pub Reach-IsValid : {m : ℕ} {s r : ExecRecord} → Reach s r → IsValid m s → IsValid m r
Reach-IsValid here v = v
Reach-IsValid (next path step) v = Step-IsValid step (Reach-IsValid path v)

Reach-AllHeard : {s r : ExecRecord} → Reach s r → AllHeard s → AllHeard r
Reach-AllHeard here h = h
Reach-AllHeard (next path step) h = Step-AllHeard step (Reach-AllHeard path h)

-- Sequence numbers that rise strictly, from `n` on.
abbrev pub Rising : ℕ → List Chunk → Type 0
Rising n [] = Unit
Rising n (c ∷ cs) = (n ≤ c.seq) × Rising (suc c.seq) cs

Rising-mono : {m n : ℕ} (cs : List Chunk) → m ≤ n → Rising n cs → Rising m cs
Rising-mono [] h k = tt
Rising-mono (c ∷ cs) h (p, k) = (omega arith, k)

Subseq-Rising : {xs ys : List Chunk} → Subseq xs ys → (n : ℕ) → Rising n ys → Rising n xs
Subseq-Rising nil n h = tt
Subseq-Rising (skip y {xs = xs} s) n (p, h) =
    Rising-mono {m = n} {n = suc y.seq} xs (omega arith) (Subseq-Rising s (suc y.seq) h)
Subseq-Rising (both y s) n (p, h) = (p, Subseq-Rising s (suc y.seq) h)

Numbered-Rising : (n : ℕ) (cs : List Chunk) → n + length cs ≤ u64_mod → Numbered n cs → Rising n cs
Numbered-Rising n [] fits h = tt
Numbered-Rising n (c ∷ cs) fits (e, h) =
    (omega arith, Rising-mono cs (omega arith) (Numbered-Rising (suc n) cs (omega arith) h))

-- From a valid record with no subscriber, whatever the interleaving: what a reader has received,
-- with what still waits in its channel, is a part of the record's chunks in their order with none
-- twice; and as long as the record has at most 2^64 chunks, its sequence numbers rise strictly.
pub received_in_order :
    {m : ℕ} {s r : ExecRecord}
    → Reach s r
    → IsValid m s
    → s.subscribers ≡ []
    → length r.chunks ≤ u64_mod
    → All (λ ch. Subseq (got ch) r.chunks × Rising 0 (got ch)) r.subscribers
received_in_order {s} {r} path valid quiet fits =
    All-weaken _ (Heard r.chunks)
      (λ ch h. let part = got-Subseq r.chunks ch h in (part, Subseq-Rising part 0 rising))
      r.subscribers (Reach-AllHeard path (rw quiet tt))
  where
    rising : Rising 0 r.chunks
    rising = Numbered-Rising 0 r.chunks (omega arith) (Reach-IsValid path valid).numbered
