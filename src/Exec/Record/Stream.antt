-- ===== src/Exec/Record/Stream.antt =====
-- The bytes that a list of chunks holds, each with its kind, and the words of the invariant.
use microvm_agentic_sandbox.Prelude.{
  ℕ, zero, suc, ◌+◌, ◌%◌, ◌≡◌, refl, ap, List, [], ◌∷◌, ◌++◌, map, append_assoc, append-nil, arith,
  if◌then◌else◌, Bytes, u64_mod, length, length-append, take,
}
use microvm_agentic_sandbox.Exec.Chunk.{ChunkKind, Chunk, is_done}

abbrev pub tag : ChunkKind → Bytes → List (ChunkKind × ℕ)
tag kind bytes = map (λ b. (kind, b)) bytes

-- The bytes of the chunks in their order.
abbrev pub tagged : List Chunk → List (ChunkKind × ℕ)
tagged [] = []
tagged (c ∷ cs) = tag c.kind c.payload ++ tagged cs

pub tagged-append : (xs ys : List Chunk) → tagged (xs ++ ys) ≡ tagged xs ++ tagged ys
tagged-append [] ys = refl
tagged-append (x ∷ xs) ys = simp (tagged-append xs ys, append_assoc)

pub length-tag : (k : ChunkKind) (b : Bytes) → length (tag k b) ≡ length b
length-tag k [] = refl
length-tag k (b ∷ bs) = ap suc (length-tag k bs)

pub tag-take : (k : ChunkKind) (n : ℕ) (b : Bytes) → tag k (take n b) ≡ take n (tag k b)
tag-take k zero b = refl
tag-take k (suc n) [] = refl
tag-take k (suc n) (b ∷ bs) = ap (λ r. (k, b) ∷ r) (tag-take k n bs)

-- The chunk at place i has the sequence number n + i, in a uint64.
abbrev pub Numbered : ℕ → List Chunk → Type 0
Numbered n [] = Unit
Numbered n (c ∷ cs) = (c.seq ≡ n % u64_mod) × Numbered (suc n) cs

pub Numbered-concat :
    (n : ℕ) (cs : List Chunk) (c : Chunk)
    → Numbered n cs
    → c.seq ≡ (n + length cs) % u64_mod
    → Numbered n (cs ++ c ∷ [])
Numbered-concat n [] c h e = (omega arith, tt)
Numbered-concat n (d ∷ cs) c (p, h) e = (p, Numbered-concat (suc n) cs c h (omega arith))

-- How many terminal chunks there are.
abbrev pub dones : List Chunk → ℕ
dones [] = 0
dones (c ∷ cs) = (if is_done c.kind then 1 else 0) + dones cs

pub dones-append : (xs ys : List Chunk) → dones (xs ++ ys) ≡ dones xs + dones ys
dones-append [] ys = omega arith
dones-append (x ∷ xs) ys = omega (arith, dones-append xs ys)

pub tagged-concat :
    (cs : List Chunk) (c : Chunk) → tagged (cs ++ c ∷ []) ≡ tagged cs ++ tag c.kind c.payload
tagged-concat cs c = simp (tagged-append, append-nil)

pub length-tagged_concat :
    (cs : List Chunk) (c : Chunk)
    → length (tagged (cs ++ c ∷ [])) ≡ length (tagged cs) + length c.payload
length-tagged_concat cs c =
    rw (tagged-concat cs c, length-append (tagged cs), length-tag c.kind c.payload)

pub dones-concat :
    (cs : List Chunk) (c : Chunk)
    → dones (cs ++ c ∷ []) ≡ dones cs + (if is_done c.kind then 1 else 0)
dones-concat cs c = omega (arith, dones-append cs (c ∷ []))
