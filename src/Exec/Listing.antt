-- ===== src/Exec/Listing.antt =====
-- adapter/internal/exec/registry.go: `List` and `queryBySandbox`. The order in which Go walks a map, and
-- the order of records that `sort.Slice` finds equal, are not specified: the sort is a parameter.
pub mod Sorting
pub mod Scanning
pub mod Laws
use microvm_agentic_sandbox.Prelude.{
  ℕ, String, Bool, true, false, not, ◌||◌, Option, none, some, List, [], ◌∷◌, ◌++◌, keep, str_eq,
  if◌then◌else◌,
}
use microvm_agentic_sandbox.Prelude.Dict
use microvm_agentic_sandbox.Prelude.Dict.{Dict}
use microvm_agentic_sandbox.Exec.Record.{ExecRecord}
use microvm_agentic_sandbox.Exec.Table.{EnvCodec, ExecRow, scan_exec_row}
use microvm_agentic_sandbox.Exec.Registry.{Registry, Reply, ok, err, query_failed, session}

-- The loop over `r.bySession[sandboxID]`.
unfoldable pub held_records : Dict Bool → Registry → List ExecRecord
held_records [] s = []
held_records ((id, _) ∷ ids) s =
    let rest = held_records ids s in
    elim (Dict.get s.records id) [ none ↦ rest | some p ↦ s.heap p ∷ rest ]

-- `seen[id]`
abbrev pub has_id : String → List ExecRecord → Bool
has_id id [] = false
has_id id (r ∷ rs) = str_eq r.id id || has_id id rs

-- SELECT … WHERE sandbox_id = $1
unfoldable pub rows_of : String → List ExecRow → List ExecRow
rows_of sandbox_id [] = []
rows_of sandbox_id (row ∷ rows) =
    if str_eq row.sandbox_id sandbox_id
    then row ∷ rows_of sandbox_id rows
    else rows_of sandbox_id rows

add_scanned : Option ExecRecord → Option (List ExecRecord) → Option (List ExecRecord)
add_scanned none rest = none
add_scanned (some r) none = none
add_scanned (some r) (some rs) = some (r ∷ rs)

unfoldable pub scan_all : EnvCodec → List ExecRow → Option (List ExecRecord)
unfolding add_scanned
scan_all codec [] = some []
scan_all codec (row ∷ rows) = add_scanned (scan_exec_row codec row) (scan_all codec rows)

-- `queryBySandbox`; `none` is its error.
unfoldable pub query_by_sandbox : EnvCodec → Bool → String → List ExecRow → Option (List ExecRecord)
query_by_sandbox codec fault sandbox_id rows =
    if fault then none else scan_all codec (rows_of sandbox_id rows)

-- Both sources, before the sort.
unfoldable pub merge_sources : List ExecRecord → List ExecRecord → List ExecRecord
merge_sources held stored = held ++ keep (λ r. not (has_id r.id held)) stored

list_from :
    (List ExecRecord → List ExecRecord)
    → List ExecRecord
    → Option (List ExecRecord)
    → Reply (List ExecRecord)
list_from sort held none = err query_failed
list_from sort held (some stored) = ok (sort (merge_sources held stored))

-- `Registry.List`
unfoldable pub list_execs :
    EnvCodec
    → (List ExecRecord → List ExecRecord)
    → Bool
    → String
    → Registry
    → Reply (List ExecRecord)
unfolding list_from
list_execs codec sort fault sandbox_id s =
    list_from sort (held_records (session s sandbox_id) s)
      (query_by_sandbox codec fault sandbox_id s.execs)
