-- ===== src/Exec/Listing/Laws.antt =====
-- What `List` gives.
use microvm_agentic_sandbox.Prelude.{
  ℕ, ◌≡◌, refl, sym, ap, subst, ◌∙◌, String, Bool, true, false, not, ◌||◌, ◌&&◌, Option, none, some,
  List, [], ◌∷◌, keep, eq_iff, arith, All, All-append, All-weaken, Bool-cases, Option-cases, inl,
  inr,
}
use microvm_agentic_sandbox.Prelude.Dict
use microvm_agentic_sandbox.Prelude.Dict.{Dict}
use microvm_agentic_sandbox.Exec.Record.{ExecRecord}
use microvm_agentic_sandbox.Exec.Table.{EnvCodec}
use microvm_agentic_sandbox.Exec.Registry.{Registry, ok, session}
use microvm_agentic_sandbox.Exec.Registry.Index.{is_held, in_session, owner, owned_by, IsIndexed}
use microvm_agentic_sandbox.Exec.Listing.{
  held_records, has_id, rows_of, scan_all, query_by_sandbox, merge_sources, list_from, list_execs,
}
use microvm_agentic_sandbox.Exec.Listing.Sorting.{InOrder, Sorter, All-Permutes, has_id-Permutes}
use microvm_agentic_sandbox.Exec.Listing.Scanning.{has_row, has_id-merge, has_id-scanned}

module _ (s : Registry) (v : IsIndexed s) where
  has_id-held :
      (ids : Dict Bool) (id : String)
      → has_id id (held_records ids s)
        ≡ (is_held (Dict.get ids id) && is_held (Dict.get s.records id))
  unfolding held_records Dict.get
  has_id-held [] id = refl
  has_id-held ((j, b) ∷ ids) id = elim (Option-cases (Dict.get s.records j)) [
    | inl gone ↦ rw (gone, held_records) (ground (arith, has_id-held ids id, gone, eq_iff j id))
    | inr (p, found) ↦
        rw (found, held_records)
          (ground (
            arith,
            has_id-held ids id,
            found,
            v.named j p found,
            eq_iff j id,
            eq_iff (s.heap p).id id,
          ))
  ]

  has_id-session :
      (sandbox_id id : String)
      → has_id id (held_records (session s sandbox_id) s) ≡ in_session s sandbox_id id
  unfolding in_session owner
  has_id-session sandbox_id id =
      has_id-held (session s sandbox_id) id ∙ agreed (v.agree sandbox_id id)
    where
      agreed :
          in_session s sandbox_id id ≡ owned_by (owner s id) sandbox_id
          → (is_held (Dict.get (session s sandbox_id) id) && is_held (Dict.get s.records id))
            ≡ in_session s sandbox_id id
      agreed e = ground arith

  -- The record that the registry holds under its id.
  IsHeld : ExecRecord → Type 0
  IsHeld r = (p : ℕ) × (Dict.get s.records r.id ≡ some p) × (r ≡ s.heap p)

  own_record-IsHeld : (ids : Dict Bool) → All IsHeld (held_records ids s)
  unfolding held_records IsHeld
  own_record-IsHeld [] = tt
  own_record-IsHeld ((j, b) ∷ ids) = elim (Option-cases (Dict.get s.records j)) [
    | inl gone ↦ rw (gone, held_records) (own_record-IsHeld ids)
    | inr (p, found) ↦
        rw (found, held_records)
          ((p, ap (Dict.get s.records) (v.named j p found) ∙ found, refl), own_record-IsHeld ids)
  ]

  -- An entry of the list is the registry's record wherever that has one.
  abbrev pub PrefersMemory : String → ExecRecord → Type 0
  PrefersMemory sandbox_id r =
      in_session s sandbox_id r.id ≡ true
      → (p : ℕ) × (Dict.get s.records r.id ≡ some p) × (r ≡ s.heap p)

  unseen-PrefersMemory :
      (sandbox_id : String) (stored : List ExecRecord)
      → All
          (PrefersMemory sandbox_id)
          (keep (λ r. not (has_id r.id (held_records (session s sandbox_id) s))) stored)
  unseen-PrefersMemory sandbox_id [] = tt
  unseen-PrefersMemory sandbox_id (r ∷ stored) =
      elim (Bool-cases (has_id r.id (held_records (session s sandbox_id) s))) [
        | inl e ↦ rw e (unseen-PrefersMemory sandbox_id stored)
        | inr e ↦ rw e (
            (
              λ h. absurd (never (sym (has_id-session sandbox_id r.id ∙ h) ∙ e)),
              unseen-PrefersMemory sandbox_id stored,
            ))
      ]
    where
      never : true ≡ false → ⊥
      never h = cc

  merge-PrefersMemory :
      (sandbox_id : String) (stored : List ExecRecord)
      → All
          (PrefersMemory sandbox_id)
          (merge_sources (held_records (session s sandbox_id) s) stored)
  unfolding merge_sources
  merge-PrefersMemory sandbox_id stored =
      All-append (PrefersMemory sandbox_id) (held_records (session s sandbox_id) s) _
        (All-weaken (PrefersMemory sandbox_id) IsHeld (λ r h _. unfold IsHeld in h)
          (held_records (session s sandbox_id) s) (own_record-IsHeld (session s sandbox_id)))
        (unseen-PrefersMemory sandbox_id stored)

-- What a list of the execs of a sandbox is.
pub record IsListing (sandbox_id : String) (s : Registry) (rs : List ExecRecord) : Type 0 where
  pub ordered : InOrder rs
  pub complete :
      (id : String) → has_id id rs ≡ (in_session s sandbox_id id || has_row sandbox_id id s.execs)
  pub fresh :
      All
        (λ r.
          in_session s sandbox_id r.id ≡ true
          → (p : ℕ) × (Dict.get s.records r.id ≡ some p) × (r ≡ s.heap p))
        rs

-- For every sort as the standard library promises it, where the two maps of the registry agree: a
-- `List` that succeeds gives records that are ordered by the time of their start; an id is among them
-- exactly when the registry holds it for the sandbox or a row of the sandbox has it; and an id that
-- the registry holds stands for the record in memory, not for its row.
pub list_execs-IsListing :
    (codec : EnvCodec) (sorter : Sorter) (fault : Bool) (sandbox_id : String) (s : Registry)
    (rs : List ExecRecord)
    → IsIndexed s
    → list_execs codec sorter.sort fault sandbox_id s ≡ ok rs
    → IsListing sandbox_id s rs
unfolding list_execs query_by_sandbox
list_execs-IsListing codec sorter true sandbox_id s rs v h = unfold list_from in cc
list_execs-IsListing codec sorter false sandbox_id s rs v h = from _ refl h
  where
    held : List ExecRecord
    held = held_records (session s sandbox_id) s

    listed :
        (stored : List ExecRecord)
        → scan_all codec (rows_of sandbox_id s.execs) ≡ some stored
        → IsListing sandbox_id s (sorter.sort (merge_sources held stored))
    listed stored scanned = record {
      ordered = sorter.orders (merge_sources held stored);
      complete = λ id.
          sym (has_id-Permutes id (sorter.permutes (merge_sources held stored)))
          ∙ has_id-merge id held stored
          ∙ rw
              (
                has_id-session s v sandbox_id id,
                has_id-scanned codec sandbox_id id s.execs stored scanned,
              )
              refl;
      fresh =
          All-Permutes (PrefersMemory s v sandbox_id) (sorter.permutes (merge_sources held stored))
            (merge-PrefersMemory s v sandbox_id stored);
    }

    from :
        (o : Option (List ExecRecord))
        → scan_all codec (rows_of sandbox_id s.execs) ≡ o
        → list_from sorter.sort held o ≡ ok rs
        → IsListing sandbox_id s rs
    from none scanned e = unfold list_from in cc
    from (some stored) scanned e =
        subst (IsListing sandbox_id s) (unfold list_from in cc) (listed stored scanned)
