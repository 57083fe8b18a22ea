-- ===== src/Exec/Registry.antt =====
-- adapter/internal/exec/registry.go: `Registry` and its methods. The records live on a heap, since
-- the maps of the registry, the handlers and the goroutine that drains an exec share them by
-- pointer; a pointer is a number. Each method is run as a whole here; Actions takes `Register` apart.
pub mod Index
pub mod Rollback
pub mod Restore
pub mod Closing
pub mod Actions
use microvm_agentic_sandbox.Prelude.{
  ℕ, ◌+◌, String, Bool, true, false, ◌==◌, str_eq, if◌then◌else◌, Option, none, some, List, [], ◌∷◌,
  ◌++◌, ℤ, Time, length,
}
use microvm_agentic_sandbox.Prelude.Dict
use microvm_agentic_sandbox.Prelude.Dict.{Dict, is_empty}
use microvm_agentic_sandbox.Exec.Record.{ExecRecord, complete, fail}
use microvm_agentic_sandbox.Exec.Table.{
  EnvCodec, ExecRow, or_zero, find_row, insert_row, or_empty_map, register_row, persist_final,
  scan_exec_row,
}

-- The registry with the heap of records and the execs table that it works on.
pub record Registry : Type 0 where
  pub heap : ℕ → ExecRecord
  pub records : Dict ℕ
  pub by_session : Dict (Dict Bool)
  pub execs : List ExecRow

pub data RegistryError : Type 0 where
  already_registered marshal_failed insert_failed exec_not_found query_failed : RegistryError

pub data Reply {ℓ} (A : Type ℓ) : Type ℓ where
  ok : A → Reply A
  err : RegistryError → Reply A

-- `r.bySession[sandboxID]`, where a missing key gives the nil map
abbrev pub session : Registry → String → Dict Bool
session s sandbox_id = or_zero [] (Dict.get s.by_session sandbox_id)

-- The part of `Register` under the lock, past the test on the id.
unfoldable pub enter : ℕ → ExecRecord → Registry → Registry
enter p rec s = record s {
  records = Dict.put s.records rec.id p;
  by_session =
      Dict.put s.by_session rec.sandbox_id (Dict.put (session s rec.sandbox_id) rec.id true);
}

-- What `removeInMemory` leaves of the set of a session: an empty set is deleted.
drop_from : ExecRecord → Dict (Dict Bool) → Option (Dict Bool) → Dict (Dict Bool)
drop_from rec by_session none = by_session
drop_from rec by_session (some ids) =
    let rest = Dict.remove ids rec.id in
    if is_empty rest
    then Dict.remove by_session rec.sandbox_id
    else Dict.put by_session rec.sandbox_id rest

unfoldable pub remove_in_memory : ExecRecord → Registry → Registry
unfolding drop_from
remove_in_memory rec s = record s {
  records = Dict.remove s.records rec.id;
  by_session = drop_from rec s.by_session (Dict.get s.by_session rec.sandbox_id);
}

-- The rest of `Register`, from `json.Marshal` on.
unfoldable pub insert_exec : EnvCodec → Bool → ExecRecord → Registry → Reply (Unit {0}) × Registry
insert_exec codec fault rec s = elim (codec.marshal (or_empty_map rec.env)) [
  | none ↦ (err marshal_failed, remove_in_memory rec s)
  | some environment ↦ elim (insert_row fault (register_row environment rec) s.execs) [
    | none ↦ (err insert_failed, remove_in_memory rec s)
    | some rows ↦ (ok tt, record s { execs = rows })
  ]
]

-- `Register` of the record at pointer `p`.
unfoldable pub register : EnvCodec → Bool → ℕ → Registry → Reply (Unit {0}) × Registry
unfolding insert_exec
register codec fault p s =
    let rec = s.heap p in
    elim (Dict.get s.records rec.id) [
      | some _ ↦ (err already_registered, s)
      | none ↦ insert_exec codec fault rec (enter p rec s)
    ]

abbrev pub write : ℕ → ExecRecord → (ℕ → ExecRecord) → ℕ → ExecRecord
write p rec heap q = if q == p then rec else heap q

-- The record at `p` after a change, and the row written from it.
unfoldable pub finish_and_persist : Bool → ℕ → ExecRecord → Registry → Registry
finish_and_persist fault p rec s = record s {
  heap = write p rec s.heap;
  execs = persist_final fault rec s.execs;
}

-- `Registry.Complete`
unfoldable pub complete_exec : Bool → ℕ → ℤ → Time → Registry → Registry
complete_exec fault p code now s = finish_and_persist fault p (complete code now (s.heap p)) s

-- `Registry.Errored`
unfoldable pub fail_exec : Bool → ℕ → ℤ → String → Time → Registry → Registry
fail_exec fault p code reason now s = finish_and_persist fault p (fail code reason now (s.heap p)) s

-- `queryByID`; `fault` is a query that fails.
unfoldable pub query_row : EnvCodec → Option ExecRow → Reply ExecRecord
query_row codec none = err exec_not_found
query_row codec (some row) = elim (scan_exec_row codec row) [
  | none ↦ err query_failed
  | some rec ↦ ok rec
]

unfoldable pub query_by_id : EnvCodec → Bool → String → List ExecRow → Reply ExecRecord
unfolding query_row
query_by_id codec fault id rows =
    if fault then err query_failed else query_row codec (find_row id rows)

-- What `Get` returns: a pointer that the registry holds, or a record made from a row.
pub data Ref : Type 0 where
  held : ℕ → Ref
  loaded : ExecRecord → Ref

unfoldable pub get_exec : EnvCodec → Bool → String → Registry → Reply Ref
get_exec codec fault id s = elim (Dict.get s.records id) [
  | some p ↦ ok (held p)
  | none ↦ elim (query_by_id codec fault id s.execs) [ err e ↦ err e | ok rec ↦ ok (loaded rec) ]
]

-- `for id := range ids { delete(r.records, id) }`
unfoldable pub delete_ids : Dict Bool → Dict ℕ → Dict ℕ
delete_ids [] records = records
delete_ids ((id, _) ∷ ids) records = delete_ids ids (Dict.remove records id)

-- `DeleteBySandbox`: the count of entries removed, and the registry.
unfoldable pub delete_by_sandbox : String → Registry → ℕ × Registry
delete_by_sandbox sandbox_id s = (
  length (session s sandbox_id),
  record s {
    records = delete_ids (session s sandbox_id) s.records;
    by_session = Dict.remove s.by_session sandbox_id;
  },
)
