-- ===== src/Api/Stream/Chunks.antt =====
-- Parts of the numbered chunks of a record.
use microvm_agentic_sandbox.Prelude.{
  ℕ, zero, suc, ◌+◌, ◌≤◌, ◌<◌, ◌≡◌, refl, subst, ap, true, false, List, [], ◌∷◌, ◌++◌, arith, leb,
  if◌then◌else◌, u64_mod, length, take, Bool-cases, inl, inr,
}
use microvm_agentic_sandbox.Exec.Chunk.{Chunk, is_done}
use microvm_agentic_sandbox.Exec.Record.Stream.{Numbered, dones}
use microvm_agentic_sandbox.Exec.Record.Replay.{since}

-- The chunks up to the first terminal one, that one included.
abbrev pub through_done : List Chunk → List Chunk
through_done [] = []
through_done (c ∷ cs) = let rest = through_done cs in c ∷ (if is_done c.kind then [] else rest)

-- Without a terminal chunk the whole list goes through, and with one what follows does not matter.
pub through_done-none : (cs : List Chunk) → dones cs ≡ 0 → through_done cs ≡ cs
through_done-none [] h = refl
through_done-none (c ∷ cs) h = elim (Bool-cases (is_done c.kind)) [
  | inl e ↦ absurd (ground (arith, e, h))
  | inr e ↦ rw e (ap (λ r. c ∷ r) (through_done-none cs (ground (arith, e, h))))
]

pub through_done-some :
    (cs ds : List Chunk) → 0 < dones cs → through_done (cs ++ ds) ≡ through_done cs
through_done-some [] ds h = absurd (omega arith)
through_done-some (c ∷ cs) ds h = elim (Bool-cases (is_done c.kind)) [
  | inl e ↦ rw e refl
  | inr e ↦ rw e (ap (λ r. c ∷ r) (through_done-some cs ds (ground (arith, e, h))))
]

pub through_done-append :
    (cs ds : List Chunk) → dones cs ≡ 0 → through_done (cs ++ ds) ≡ cs ++ through_done ds
through_done-append [] ds h = refl
through_done-append (c ∷ cs) ds h = elim (Bool-cases (is_done c.kind)) [
  | inl e ↦ absurd (ground (arith, e, h))
  | inr e ↦ rw e (ap (λ r. c ∷ r) (through_done-append cs ds (ground (arith, e, h))))
]

pub dones-through : (cs : List Chunk) → 0 < dones cs → 0 < dones (through_done cs)
dones-through [] h = h
dones-through (c ∷ cs) h = elim (Bool-cases (is_done c.kind)) [
  | inl e ↦ rw e (ground arith)
  | inr e ↦ rw e (ground (arith, dones-through cs (ground (arith, e, h))))
]

pub Numbered-left : (n : ℕ) (xs ys : List Chunk) → Numbered n (xs ++ ys) → Numbered n xs
Numbered-left n [] ys h = tt
Numbered-left n (x ∷ xs) ys (p, h) = (p, Numbered-left (suc n) xs ys h)

pub Numbered-right :
    (n : ℕ) (xs ys : List Chunk) → Numbered n (xs ++ ys) → Numbered (n + length xs) ys
Numbered-right n [] ys h = subst (λ k. Numbered k ys) (omega arith) h
Numbered-right n (x ∷ xs) ys (p, h) =
    subst (λ k. Numbered k ys) (omega arith) (Numbered-right (suc n) xs ys h)

-- Chunks that are numbered from the asked number on, or after it, are all wanted.
since_all :
    (n from_seq : ℕ) (cs : List Chunk)
    → from_seq ≤ n
    → Numbered n cs
    → n + length cs ≤ u64_mod
    → since from_seq cs ≡ cs
since_all n from_seq [] h k fits = refl
since_all n from_seq (c ∷ cs) h (p, k) fits =
    let wanted : leb from_seq c.seq ≡ true = ground (arith, p, fits, h) in
    rw wanted
      (ap (λ r. c ∷ r) (since_all (suc n) from_seq cs (omega (arith, h)) k (omega (arith, fits))))

pub since-append :
    (n : ℕ) (xs ys : List Chunk)
    → Numbered n (xs ++ ys)
    → n + length (xs ++ ys) ≤ u64_mod
    → since (n + length xs) (xs ++ ys) ≡ ys
since-append n [] ys h fits = since_all n (n + 0) ys (omega arith) h fits
since-append n (x ∷ xs) ys (p, h) fits =
    let old : leb (n + suc (length xs)) x.seq ≡ false = ground (arith, p, fits) in
    rw old (
      subst (λ k. since k (xs ++ ys) ≡ ys) (omega arith)
        (since-append (suc n) xs ys h (omega (arith, fits))))

-- A list is its first elements and some rest.
pub take-rest : (k : ℕ) (xs : List Chunk) → (ys : List Chunk) × (xs ≡ take k xs ++ ys)
take-rest zero xs = (xs, refl)
take-rest (suc k) [] = ([], refl)
take-rest (suc k) (x ∷ xs) = let (ys, e) = take-rest k xs in (ys, ap (λ r. x ∷ r) e)
