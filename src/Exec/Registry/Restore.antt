-- ===== src/Exec/Registry/Restore.antt =====
-- adapter/internal/exec/registry.go: an exec before and after a restart of the adapter.
use mathlib.Core.Option
use microvm_agentic_sandbox.Prelude.{
  ℕ, ◌≡◌, refl, ◌∙◌, String, Bool, true, false, none, some, List, [], ◌∷◌, arith, str_eq, eq_iff,
  if◌then◌else◌, Bytes, ℤ, Time, Bool-cases, inl, inr,
}
use microvm_agentic_sandbox.Prelude.Dict
use microvm_agentic_sandbox.Exec.Chunk.{status_string, parse_status, parse_status-status_string}
use microvm_agentic_sandbox.Exec.Record.{
  Env, ExecRecord, finish_locked, finish, fan_out, complete, output,
}
use microvm_agentic_sandbox.Exec.Load.{snapshot, new_exec_record_from_db}
use microvm_agentic_sandbox.Exec.Load.Laws.{output-loaded}
use microvm_agentic_sandbox.Exec.Table.{
  EnvCodec, ExecRow, find_row, update_rows, or_zero, blob, null_if_empty, stored_time, final_row,
  persist_final, scan_env, record_of_row, scan_exec_row,
}
use microvm_agentic_sandbox.Exec.Registry.{
  Registry, ok, loaded, finish_and_persist, complete_exec, query_row, query_by_id, get_exec,
}

-- What a record that was rebuilt from a row has in common with the record that the row was written
-- from.
pub record Restores (rec r : ExecRecord) : Type 0 where
  pub same_output : output r ≡ output rec
  pub same_status : r.status ≡ rec.status
  pub same_exit_code : r.exit_code ≡ rec.exit_code
  pub same_truncated : r.truncated ≡ rec.truncated
  pub same_reason : r.completion_err ≡ rec.completion_err
  pub same_completed_at : r.completed_at ≡ stored_time rec.completed_at

or_zero-blob : (b : Bytes) → or_zero [] (blob b) ≡ b
or_zero-blob [] = refl
or_zero-blob (x ∷ xs) = refl

pub or_zero-null_if_empty : (s : String) → or_zero "" (null_if_empty s) ≡ s
unfolding null_if_empty
or_zero-null_if_empty s = ground (arith, eq_iff s "")

record_of_row-Restores :
    (rec : ExecRecord) (row : ExecRow) (env : Env)
    → Restores rec (record_of_row (final_row rec row) env)
record_of_row-Restores rec row env = record {
  same_output =
      unfold record_of_row final_row in
      (output-loaded row.id row.sandbox_id row.command row.cwd env row.background
          row.max_output_bytes (snapshot rec).exit_code (snapshot rec).truncated
          (or_zero "" (null_if_empty (snapshot rec).completion_err)) row.started_at
          (stored_time (snapshot rec).completed_at)
          (parse_status (status_string (snapshot rec).status)) (or_zero [] (blob (output rec).0))
          (or_zero [] (blob (output rec).1))
        ∙ rw (or_zero-blob (output rec).0, or_zero-blob (output rec).1));
  same_status =
      unfold record_of_row final_row new_exec_record_from_db snapshot in
      parse_status-status_string rec.status;
  same_exit_code = unfold record_of_row final_row new_exec_record_from_db snapshot in refl;
  same_truncated = unfold record_of_row final_row new_exec_record_from_db snapshot in refl;
  same_reason =
      unfold record_of_row final_row new_exec_record_from_db snapshot in
      or_zero-null_if_empty rec.completion_err;
  same_completed_at = unfold record_of_row final_row new_exec_record_from_db snapshot in refl;
}

-- An update that leaves the ids alone changes what is found under an id, and only that.
pub find_row-update :
    (test : ExecRow → Bool) (f : ExecRow → ExecRow) (id : String)
    → ((row : ExecRow) → (f row).id ≡ row.id)
    → (rows : List ExecRow)
    → find_row id (update_rows test f rows)
      ≡ Option.map (λ row. if test row then f row else row) (find_row id rows)
unfolding find_row update_rows
find_row-update test f id keeps [] = refl
find_row-update test f id keeps (x ∷ rows) =
    ground (arith, find_row-update test f id keeps rows, keeps x)

id-complete : (code : ℤ) (now : Time) (r : ExecRecord) → (complete code now r).id ≡ r.id
unfolding complete finish finish_locked fan_out
id-complete code now r = ground arith

-- The registry of an adapter that starts anew on the same database.
abbrev pub restart : Registry → Registry
restart s = record s { records = []; by_session = [] }

-- What `Get` makes of a row, once the registry holds no record under the id.
pub get_exec-row :
    (codec : EnvCodec) (id : String) (s : Registry) (row : ExecRow) (env : Env)
    → Dict.get s.records id ≡ none
    → find_row id s.execs ≡ some row
    → scan_env codec row.environment ≡ some env
    → get_exec codec false id s ≡ ok (loaded (record_of_row row env))
unfolding get_exec query_by_id
get_exec-row codec id s row env gone found scanned =
    rw (gone, get_exec, found, query_row) (unfold scan_exec_row in rw (scanned, query_row))

pub find_row_id :
    (id : String) (rows : List ExecRow) (row : ExecRow)
    → find_row id rows ≡ some row
    → str_eq row.id id ≡ true
unfolding find_row
find_row_id id [] row h = cc
find_row_id id (x ∷ rows) row h = elim (Bool-cases (str_eq x.id id)) [
  | inl hit ↦ ground (arith, hit)
  | inr miss ↦ find_row_id id rows row (ground (arith, miss))
]

id-final_row : (rec : ExecRecord) (row : ExecRow) → (final_row rec row).id ≡ row.id
unfolding final_row
id-final_row rec row = refl

find_row-persist :
    (id : String) (rec : ExecRecord) (rows : List ExecRow) (row : ExecRow)
    → rec.id ≡ id
    → find_row id rows ≡ some row
    → find_row id (persist_final false rec rows) ≡ some (final_row rec row)
unfolding persist_final
find_row-persist id rec rows row same found =
    find_row-update (λ x. str_eq x.id rec.id) (final_row rec) id (id-final_row rec) rows
    ∙ rw (found, same, find_row_id id rows row found)

-- After `Complete` of the record at p, whose row is in the table with an environment that can be read,
-- its final UPDATE having reached the database, and a restart of the adapter: `Get`
-- returns a record with the output, the status, the exit code, the truncation flag, the reason and
-- the completion time that the record in memory had, the time in the microseconds that the table
-- keeps.
pub complete-restart :
    (codec : EnvCodec) (p : ℕ) (code : ℤ) (now : Time) (s : Registry) (row : ExecRow) (env : Env)
    → find_row (s.heap p).id s.execs ≡ some row
    → scan_env codec row.environment ≡ some env
    → (r : ExecRecord) × (get_exec codec false
          (s.heap p).id
          (restart (complete_exec false p code now s))
        ≡ ok (loaded r))
      × Restores (complete code now (s.heap p)) r
unfolding complete_exec finish_and_persist Dict.get
complete-restart codec p code now s row env found scanned =
    let rec = complete code now (s.heap p) in
    (
      record_of_row (final_row rec row) env,
      get_exec-row codec (s.heap p).id _ (final_row rec row) env refl
          (find_row-persist (s.heap p).id rec s.execs row (id-complete code now (s.heap p)) found)
          (unfold final_row in scanned),
      record_of_row-Restores rec row env,
    )
