-- ===== src/Tests/Registries.antt =====
-- The registry of execs: adapter/internal/exec/registry.go at concrete inputs.
use microvm_agentic_sandbox.Prelude.{◌≡◌, refl, true, false, none, some, List, [], ◌∷◌, pos}
use microvm_agentic_sandbox.Prelude.Dict
use microvm_agentic_sandbox.Exec.Record.{ExecRecord, new_exec_record, complete}
use microvm_agentic_sandbox.Exec.Load.{new_exec_record_from_db}
use microvm_agentic_sandbox.Exec.Table.{
  EnvCodec, ExecRow, find_row, insert_row, orphan, reconcile, scan_env, scan_exec_row, register_row,
  or_empty_map, update_rows,
}
use microvm_agentic_sandbox.Exec.Registry.{
  Registry, ok, loaded, enter, register, complete_exec, get_exec,
}
use microvm_agentic_sandbox.Exec.Listing.{
  held_records, rows_of, scan_all, query_by_sandbox, merge_sources, list_execs,
}
use microvm_agentic_sandbox.Exec.Listing.Sorting.{insertion, sort_started}
use microvm_agentic_sandbox.Exec.Listing.Laws.{IsListing, list_execs-IsListing}
use microvm_agentic_sandbox.Exec.Registry.Index.{in_session, owner, IsIndexed}
use microvm_agentic_sandbox.Exec.Registry.Rollback.{
  IsRegistered, register-IsIndexed, register-IsRegistered,
}
use microvm_agentic_sandbox.Exec.Registry.Restore.{Restores, restart, complete-restart}
use microvm_agentic_sandbox.Exec.Registry.Closing.{is_open}

abbrev plain : EnvCodec
plain = record { marshal = λ m. some "{}"; unmarshal = λ s. some (some []) }

abbrev refusing : EnvCodec
refusing = record { marshal = λ m. none; unmarshal = λ s. none }

abbrev exec_one : ExecRecord
exec_one = new_exec_record "e1" "s1" ("ls" ∷ []) none "" false (pos 5) 7

abbrev empty_registry : Registry
empty_registry = record { heap = λ p. exec_one; records = []; by_session = []; execs = [] }

empty-IsIndexed : IsIndexed empty_registry
empty-IsIndexed = record {
  agree = λ sandbox_id id. unfold in_session owner Dict.get in refl;
  named = λ id p h. unfold Dict.get in cc;
}

abbrev one_registered : Registry
one_registered = (register plain false 0 empty_registry).1

accepted : (register plain false 0 empty_registry).0 ≡ ok tt
unfolding register new_exec_record Dict.get enter insert_row register_row or_empty_map find_row
accepted = refl

register-IsRegistered_example : IsRegistered plain 0 empty_registry one_registered
register-IsRegistered_example = register-IsRegistered plain false 0 empty_registry accepted

abbrev row_one : ExecRow
row_one = register_row "{}" exec_one

abbrev with_row : Registry
with_row = record empty_registry { execs = row_one ∷ [] }

row_found : find_row exec_one.id with_row.execs ≡ some row_one
unfolding find_row register_row new_exec_record
row_found = refl

row_scanned : scan_env plain row_one.environment ≡ some (some [])
unfolding scan_env register_row
row_scanned = refl

complete-restart_example :
    (r : ExecRecord) × (get_exec plain false exec_one.id
        (restart (complete_exec false 0 (pos 3) 9 with_row))
      ≡ ok (loaded r))
    × Restores (complete (pos 3) 9 exec_one) r
complete-restart_example =
    complete-restart plain 0 (pos 3) 9 with_row row_one (some []) row_found row_scanned

abbrev closed_rows : List ExecRow
closed_rows = orphan 9 row_one ∷ []

reconciled : reconcile false 9 with_row.execs ≡ some closed_rows
unfolding reconcile update_rows register_row
reconciled = refl

row_at : find_row "e1" with_row.execs ≡ some row_one
unfolding find_row register_row new_exec_record
row_at = refl

not_held : Dict.get with_row.records "e1" ≡ none
unfolding Dict.get
not_held = refl

row_open : is_open row_one ≡ true
unfolding register_row
row_open = refl

listed : list_execs plain insertion.sort false "s1" one_registered ≡ ok (exec_one ∷ [])
unfolding list_execs held_records Dict.get Dict.put Dict.remove query_by_sandbox rows_of scan_all
    merge_sources sort_started register new_exec_record enter insert_row register_row or_empty_map
    find_row scan_exec_row new_exec_record_from_db
listed = refl

list_execs-IsListing_example : IsListing "s1" one_registered (exec_one ∷ [])
list_execs-IsListing_example =
    list_execs-IsListing plain insertion false "s1" one_registered (exec_one ∷ [])
      (register-IsIndexed plain false 0 empty_registry empty-IsIndexed) listed
