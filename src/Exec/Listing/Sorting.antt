-- ===== src/Exec/Listing/Sorting.antt =====
-- What `List` relies on of `sort.Slice` by the time of the start, and a sort that has it.
use microvm_agentic_sandbox.Prelude.{
  ℕ, ◌≤◌, ◌≡◌, refl, List, [], ◌∷◌, leb, if◌then◌else◌, arith, String, All, Permutes, none_left,
  keep_first, swap_two, in_turn, Bool-cases, inl, inr,
}
use microvm_agentic_sandbox.Exec.Record.{ExecRecord}
use microvm_agentic_sandbox.Exec.Listing.{has_id}

-- Each record started no later than those after it.
abbrev pub InOrder : List ExecRecord → Type 0
InOrder [] = Unit
InOrder (r ∷ rs) = All (λ q. r.started_at ≤ q.started_at) rs × InOrder rs

pub record Sorter : Type 0 where
  pub sort : List ExecRecord → List ExecRecord
  pub permutes : (rs : List ExecRecord) → Permutes rs (sort rs)
  pub orders : (rs : List ExecRecord) → InOrder (sort rs)

pub All-Permutes {κ} :
    (P : ExecRecord → Type κ) {xs ys : List ExecRecord} → Permutes xs ys → All P xs → All P ys
All-Permutes P none_left h = tt
All-Permutes P (keep_first x s) (p, h) = (p, All-Permutes P s h)
All-Permutes P (swap_two x y xs) (p, (q, h)) = (q, (p, h))
All-Permutes P (in_turn s t) h = All-Permutes P t (All-Permutes P s h)

pub has_id-Permutes :
    (id : String) {xs ys : List ExecRecord} → Permutes xs ys → has_id id xs ≡ has_id id ys
has_id-Permutes id none_left = refl
has_id-Permutes id (keep_first x {xs} {ys} s) = ground (arith, has_id-Permutes id s)
has_id-Permutes id (swap_two x y xs) = ground arith
has_id-Permutes id (in_turn s t) = cc (has_id-Permutes id s, has_id-Permutes id t)

insert_started : ExecRecord → List ExecRecord → List ExecRecord
insert_started r [] = r ∷ []
insert_started r (q ∷ rs) =
    let later = q ∷ insert_started r rs in
    if leb r.started_at q.started_at then r ∷ q ∷ rs else later

unfoldable pub sort_started : List ExecRecord → List ExecRecord
unfolding insert_started
sort_started [] = []
sort_started (r ∷ rs) = insert_started r (sort_started rs)

refl_Permutes : (rs : List ExecRecord) → Permutes rs rs
refl_Permutes [] = none_left
refl_Permutes (r ∷ rs) = keep_first r (refl_Permutes rs)

insert-Permutes : (r : ExecRecord) (rs : List ExecRecord) → Permutes (r ∷ rs) (insert_started r rs)
unfolding insert_started
insert-Permutes r [] = keep_first r none_left
insert-Permutes r (q ∷ rs) = elim (Bool-cases (leb r.started_at q.started_at)) [
  | inl e ↦ rw e (refl_Permutes (r ∷ q ∷ rs))
  | inr e ↦ rw e (in_turn (swap_two r q rs) (keep_first q (insert-Permutes r rs)))
]

pub sort-Permutes : (rs : List ExecRecord) → Permutes rs (sort_started rs)
unfolding sort_started
sort-Permutes [] = none_left
sort-Permutes (r ∷ rs) =
    in_turn (keep_first r (sort-Permutes rs)) (insert-Permutes r (sort_started rs))

All-le_trans :
    (a b : ℕ) (rs : List ExecRecord)
    → a ≤ b
    → All (λ q. b ≤ q.started_at) rs
    → All (λ q. a ≤ q.started_at) rs
All-le_trans a b [] h k = tt
All-le_trans a b (q ∷ rs) h (p, k) = (omega arith, All-le_trans a b rs h k)

insert-InOrder :
    (r : ExecRecord) (rs : List ExecRecord) → InOrder rs → InOrder (insert_started r rs)
unfolding insert_started
insert-InOrder r [] h = (tt, tt)
insert-InOrder r (q ∷ rs) (p, h) = elim (Bool-cases (leb r.started_at q.started_at)) [
  | inl e ↦
      let first : r.started_at ≤ q.started_at = ground (arith, e) in
      rw e ((first, All-le_trans r.started_at q.started_at rs first p), (p, h))
  | inr e ↦
      let first : q.started_at ≤ r.started_at = ground (arith, e) in
      rw e (
        All-Permutes (λ x. q.started_at ≤ x.started_at) (insert-Permutes r rs) (first, p),
        insert-InOrder r rs h,
      )
]

pub sort-InOrder : (rs : List ExecRecord) → InOrder (sort_started rs)
unfolding sort_started
sort-InOrder [] = tt
sort-InOrder (r ∷ rs) = insert-InOrder r (sort_started rs) (sort-InOrder rs)

-- Insertion is such a sort.
abbrev pub insertion : Sorter
insertion = record { sort = sort_started; permutes = sort-Permutes; orders = sort-InOrder }
