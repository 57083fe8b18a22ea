-- ===== src/Exec/Listing/Scanning.antt =====
-- The ids that the loop over the rows and the merge of `List` give.
use microvm_agentic_sandbox.Prelude.{
  ◌≡◌, refl, sym, ap, ◌∙◌, String, Bool, true, false, not, ◌||◌, ◌&&◌, Option, none, some, List, [],
  ◌∷◌, ◌++◌, keep, str_eq, eq_iff, arith, if◌then◌else◌, Bool-cases, inl, inr,
}
use microvm_agentic_sandbox.Exec.Record.{ExecRecord}
use microvm_agentic_sandbox.Exec.Load.{new_exec_record_from_db}
use microvm_agentic_sandbox.Exec.Table.{EnvCodec, ExecRow, record_of_row, scan_exec_row}
use microvm_agentic_sandbox.Exec.Listing.{has_id, rows_of, add_scanned, scan_all, merge_sources}

-- A row of the sandbox has the id.
abbrev pub has_row : String → String → List ExecRow → Bool
has_row sandbox_id id [] = false
has_row sandbox_id id (row ∷ rows) =
    (str_eq row.sandbox_id sandbox_id && str_eq row.id id) || has_row sandbox_id id rows

has_id-append :
    (id : String) (xs ys : List ExecRecord) → has_id id (xs ++ ys) ≡ (has_id id xs || has_id id ys)
has_id-append id [] ys = refl
has_id-append id (x ∷ xs) ys = ground (arith, has_id-append id xs ys)

-- Leaving out the ids that were seen leaves out no other.
has_id-unseen :
    (id : String) (held stored : List ExecRecord)
    → (has_id id held || has_id id (keep (λ r. not (has_id r.id held)) stored))
      ≡ (has_id id held || has_id id stored)
has_id-unseen id held [] = refl
has_id-unseen id held (r ∷ stored) = elim (Bool-cases (str_eq r.id id)) [
  | inl e ↦
      let same : has_id r.id held ≡ has_id id held =
        ap (λ j. has_id j held) ((eq_iff r.id id).0 e) in
      ground (arith, same, e, has_id-unseen id held stored)
  | inr e ↦ ground (arith, e, has_id-unseen id held stored)
]

pub has_id-merge :
    (id : String) (held stored : List ExecRecord)
    → has_id id (merge_sources held stored) ≡ (has_id id held || has_id id stored)
unfolding merge_sources
has_id-merge id held stored = has_id-append id held _ ∙ has_id-unseen id held stored

id-scanned :
    (codec : EnvCodec) (row : ExecRow) (r : ExecRecord)
    → scan_exec_row codec row ≡ some r
    → r.id ≡ row.id
unfolding scan_exec_row record_of_row new_exec_record_from_db
id-scanned codec row r h = ground arith

add_scanned-some :
    (o : Option ExecRecord) (rest : Option (List ExecRecord)) (rs : List ExecRecord)
    → add_scanned o rest ≡ some rs
    → (r : ExecRecord) × (qs : List ExecRecord) × (o ≡ some r) × (rest ≡ some qs) × (r ∷ qs ≡ rs)
unfolding add_scanned
add_scanned-some none rest rs h = cc
add_scanned-some (some r) none rs h = cc
add_scanned-some (some r) (some qs) rs h = (r, qs, refl, refl, cc)

scan_mine :
    (codec : EnvCodec) (sandbox_id : String) (row : ExecRow) (rows : List ExecRow)
    (o : Option (List ExecRecord))
    → str_eq row.sandbox_id sandbox_id ≡ true
    → scan_all codec (rows_of sandbox_id (row ∷ rows)) ≡ o
    → add_scanned (scan_exec_row codec row) (scan_all codec (rows_of sandbox_id rows)) ≡ o
unfolding scan_all rows_of
scan_mine codec sandbox_id row rows o e h =
    sym (
      ap
        (λ b. scan_all codec (if b then row ∷ rows_of sandbox_id rows else rows_of sandbox_id rows))
        e)
    ∙ h

scan_other :
    (codec : EnvCodec) (sandbox_id : String) (row : ExecRow) (rows : List ExecRow)
    (o : Option (List ExecRecord))
    → str_eq row.sandbox_id sandbox_id ≡ false
    → scan_all codec (rows_of sandbox_id (row ∷ rows)) ≡ o
    → scan_all codec (rows_of sandbox_id rows) ≡ o
unfolding rows_of
scan_other codec sandbox_id row rows o e h =
    sym (
      ap
        (λ b. scan_all codec (if b then row ∷ rows_of sandbox_id rows else rows_of sandbox_id rows))
        e)
    ∙ h

pub has_id-scanned :
    (codec : EnvCodec) (sandbox_id id : String) (rows : List ExecRow) (stored : List ExecRecord)
    → scan_all codec (rows_of sandbox_id rows) ≡ some stored
    → has_id id stored ≡ has_row sandbox_id id rows
unfolding scan_all rows_of
has_id-scanned codec sandbox_id id [] stored h = ap (has_id id) (the_some h)
  where
    the_some : some [] ≡ some stored → stored ≡ []
    the_some e = cc
has_id-scanned codec sandbox_id id (row ∷ rows) stored h =
    elim (Bool-cases (str_eq row.sandbox_id sandbox_id)) [
      | inl e ↦
          let (r, qs, first, rest, same) = add_scanned-some _ _ stored (mine e) in
          let ids : r.id ≡ row.id = id-scanned codec row r first in
          let ih = has_id-scanned codec sandbox_id id rows qs rest in
          ap (has_id id) (sym same) ∙ rw (e, ids, ih) refl
      | inr e ↦ rw e (has_id-scanned codec sandbox_id id rows stored (other e))
    ]
  where
    mine :
        str_eq row.sandbox_id sandbox_id ≡ true
        → add_scanned (scan_exec_row codec row) (scan_all codec (rows_of sandbox_id rows))
          ≡ some stored
    mine e = scan_mine codec sandbox_id row rows _ e h

    other :
        str_eq row.sandbox_id sandbox_id ≡ false
        → scan_all codec (rows_of sandbox_id rows) ≡ some stored
    other e = scan_other codec sandbox_id row rows _ e h
