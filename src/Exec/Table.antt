-- ===== src/Exec/Table.antt =====
-- adapter/internal/exec/registry.go and adapter/internal/db/schema.sql: the rows of the execs table,
-- and the SQL statements that the registry runs on them. Postgres itself is not modelled: a statement
-- that does not reach the database, or that it refuses, is an argument `fault`.
use Prim.Native.String
use microvm_agentic_sandbox.Prelude.{
  ◌*◌, ◌/◌, String, Bool, false, Option, none, some, List, [], ◌∷◌, ◌++◌, str_eq, if◌then◌else◌, ℤ,
  pos, negsuc, Bytes, Time,
}
use microvm_agentic_sandbox.Prelude.Dict.{Dict}
use microvm_agentic_sandbox.Exec.Chunk.{parse_status, status_string}
use microvm_agentic_sandbox.Exec.Record.{Env, ExecRecord, output}
use microvm_agentic_sandbox.Exec.Load.{snapshot, new_exec_record_from_db}

-- `json.Marshal` of a map and `json.Unmarshal` into one; `none` is an error.
pub record EnvCodec : Type 0 where
  pub marshal : Dict String → Option String
  pub unmarshal : String → Option Env

-- A row; a NULL is `none`.
pub record ExecRow : Type 0 where
  pub id : String
  pub sandbox_id : String
  pub command : String
  pub cwd : String
  pub environment : String
  pub background : Bool
  pub max_output_bytes : ℤ
  pub status : String
  pub exit_code : Option ℤ
  pub stdout_blob : Option Bytes
  pub stderr_blob : Option Bytes
  pub truncated : Bool
  pub completion_err : Option String
  pub started_at : Time
  pub completed_at : Option Time

-- SELECT … WHERE id = $1
unfoldable pub find_row : String → List ExecRow → Option ExecRow
find_row id [] = none
find_row id (row ∷ rows) = if str_eq row.id id then some row else find_row id rows

-- INSERT INTO execs: the primary key refuses a second row with the id.
unfoldable pub insert_row : Bool → ExecRow → List ExecRow → Option (List ExecRow)
insert_row fault row rows = elim (find_row row.id rows) [
  | some _ ↦ none
  | none ↦ if fault then none else some (rows ++ row ∷ [])
]

-- UPDATE … WHERE test
unfoldable pub update_rows : (ExecRow → Bool) → (ExecRow → ExecRow) → List ExecRow → List ExecRow
update_rows test f [] = []
update_rows test f (row ∷ rows) = (if test row then f row else row) ∷ update_rows test f rows

-- `strings.Join(cmd, " ")`
unfoldable pub join_command : List String → String
join_command [] = ""
join_command (s ∷ []) = s
join_command (s ∷ t ∷ rest) = String.◌++◌ s (String.◌++◌ " " (join_command (t ∷ rest)))

-- `nullIfEmpty`
unfoldable pub null_if_empty : String → Option String
null_if_empty s = if str_eq s "" then none else some s

-- `orEmptyMap`
unfoldable pub or_empty_map : Env → Dict String
or_empty_map none = []
or_empty_map (some m) = m

-- the zero value that `sql.NullString` and its kin have for a NULL
abbrev pub or_zero {ℓ} : {A : Type ℓ} → A → Option A → A
or_zero zero_value none = zero_value
or_zero zero_value (some a) = a

-- A nil slice is stored as NULL; `Output` returns nil for a stream with no byte.
abbrev pub blob : Bytes → Option Bytes
blob [] = none
blob (b ∷ bs) = some (b ∷ bs)

-- What a TIMESTAMPTZ column keeps of a time in nanoseconds: the microseconds, the rest cut off.
unfoldable pub stored_time : Time → Time
stored_time t = t / 1000 * 1000

-- The row that `Register` inserts, `environment` being marshalled already.
unfoldable pub register_row : String → ExecRecord → ExecRow
register_row environment rec = record {
  id = rec.id;
  sandbox_id = rec.sandbox_id;
  command = join_command rec.command;
  cwd = rec.cwd;
  environment = environment;
  background = rec.background;
  max_output_bytes = rec.max_output_bytes;
  status = "running";
  exit_code = none;
  stdout_blob = none;
  stderr_blob = none;
  truncated = false;
  completion_err = none;
  started_at = stored_time rec.started_at;
  completed_at = none;
}

-- the SET list of `persistFinal`
unfoldable pub final_row : ExecRecord → ExecRow → ExecRow
final_row rec row =
    let snap = snapshot rec in
    let out = output rec in
    record row {
      status = status_string snap.status;
      exit_code = some snap.exit_code;
      stdout_blob = blob out.0;
      stderr_blob = blob out.1;
      truncated = snap.truncated;
      completion_err = null_if_empty snap.completion_err;
      completed_at = some (stored_time snap.completed_at);
    }

-- `UPDATE execs … WHERE id = $8` of `persistFinal`
unfoldable pub persist_final : Bool → ExecRecord → List ExecRow → List ExecRow
persist_final fault rec rows =
    if fault then rows else update_rows (λ row. str_eq row.id rec.id) (final_row rec) rows

-- the SET list of `Reconcile`
unfoldable pub orphan : Time → ExecRow → ExecRow
orphan now row = record row {
  status = "errored";
  exit_code = some (negsuc 0);
  completion_err = some "adapter_restarted";
  completed_at = some now;
}

-- `Registry.Reconcile`; `none` is the error.
unfoldable pub reconcile : Bool → Time → List ExecRow → Option (List ExecRow)
reconcile fault now rows =
    if fault
    then none
    else some (update_rows (λ row. str_eq row.status "running") (orphan now) rows)

-- `scanExecRow` past `row.Scan`; `none` is the error of `json.Unmarshal`.
unfoldable pub scan_env : EnvCodec → String → Option Env
scan_env codec raw = if str_eq raw "" then some none else codec.unmarshal raw

unfoldable pub record_of_row : ExecRow → Env → ExecRecord
record_of_row row env =
    new_exec_record_from_db row.id row.sandbox_id row.command row.cwd env row.background
      row.max_output_bytes (parse_status row.status) (or_zero (pos 0) row.exit_code)
      (or_zero [] row.stdout_blob) (or_zero [] row.stderr_blob) row.truncated
      (or_zero "" row.completion_err) row.started_at (or_zero 0 row.completed_at)

unfoldable pub scan_exec_row : EnvCodec → ExecRow → Option ExecRecord
unfolding scan_env record_of_row
scan_exec_row codec row = elim (scan_env codec row.environment) [
  | none ↦ none
  | some env ↦ some (record_of_row row env)
]
