-- ===== src/Exec/Registry/Closing.antt =====
-- adapter/internal/exec/registry.go: the rows before and after `Reconcile`.
use mathlib.Core.Option
use microvm_agentic_sandbox.Prelude.{
  ◌≡◌, refl, subst, ◌∙◌, String, Bool, true, false, none, some, List, [], ◌∷◌, str_eq,
  if◌then◌else◌, negsuc, Time, All, Bool-cases, inl, inr,
}
use microvm_agentic_sandbox.Prelude.Dict
use microvm_agentic_sandbox.Exec.Chunk.{errored, parse_status}
use microvm_agentic_sandbox.Exec.Record.{Env, ExecRecord, output}
use microvm_agentic_sandbox.Exec.Load.{new_exec_record_from_db}
use microvm_agentic_sandbox.Exec.Load.Laws.{output-loaded}
use microvm_agentic_sandbox.Exec.Table.{
  EnvCodec, ExecRow, find_row, update_rows, or_zero, orphan, reconcile, scan_env, record_of_row,
}
use microvm_agentic_sandbox.Exec.Registry.{Registry, ok, loaded, get_exec}
use microvm_agentic_sandbox.Exec.Registry.Restore.{find_row-update, get_exec-row}

abbrev pub is_open : ExecRow → Bool
is_open row = str_eq row.status "running"

closed_row : Time → ExecRow → ExecRow
closed_row now row = if is_open row then orphan now row else row

id-orphan : (now : Time) (row : ExecRow) → (orphan now row).id ≡ row.id
unfolding orphan
id-orphan now row = refl

open-closed : (now : Time) (row : ExecRow) → is_open (closed_row now row) ≡ false
unfolding closed_row orphan
open-closed now row = elim (Bool-cases (is_open row)) [ inl e ↦ rw e | inr e ↦ rw (e, e) ]

open-update :
    (now : Time) (rows : List ExecRow)
    → All (λ row. is_open row ≡ false) (update_rows is_open (orphan now) rows)
unfolding update_rows
open-update now [] = tt
open-update now (row ∷ rows) = (unfold closed_row in open-closed now row, open-update now rows)

-- A `Reconcile` that reaches the database leaves no row running, and under each id it changes the row
-- exactly if that was running.
pub reconcile-closes :
    (now : Time) (before after : List ExecRow) (id : String)
    → reconcile false now before ≡ some after
    → All (λ row. is_open row ≡ false) after
      × (find_row id after
          ≡ Option.map (λ row. if is_open row then orphan now row else row) (find_row id before))
unfolding reconcile
reconcile-closes now before after id h =
    let same : update_rows is_open (orphan now) before ≡ after = cc in
    subst
      (λ rows.
        All (λ row. is_open row ≡ false) rows
        × (find_row id rows
            ≡ Option.map (λ row. if is_open row then orphan now row else row) (find_row id before)))
      same (open-update now before, find_row-update is_open (orphan now) id (id-orphan now) before)

-- After a `Reconcile` that reaches the database: `Get` of an exec that the registry does not hold, whose
-- row was running and has an environment that can be read, returns an errored record with exit code
-- -1, the reason adapter_restarted, the time of the `Reconcile` as its end, and the output of the row.
pub get-reconciled :
    (codec : EnvCodec) (now : Time) (s : Registry) (after : List ExecRow) (id : String)
    (row : ExecRow) (env : Env)
    → reconcile false now s.execs ≡ some after
    → Dict.get s.records id ≡ none
    → find_row id s.execs ≡ some row
    → is_open row ≡ true
    → scan_env codec row.environment ≡ some env
    → (r : ExecRecord) × (get_exec codec false id (record s { execs = after }) ≡ ok (loaded r))
      × (r.status ≡ errored)
      × (r.exit_code ≡ negsuc 0)
      × (r.completion_err ≡ "adapter_restarted")
      × (r.completed_at ≡ now)
      × (output r ≡ (or_zero [] row.stdout_blob, or_zero [] row.stderr_blob))
get-reconciled codec now s after id row env h gone found was_open scanned = (
  record_of_row (orphan now row) env,
  get_exec-row codec id (record s { execs = after }) (orphan now row) env gone
      ((reconcile-closes now s.execs after id h).1 ∙ rw (found, was_open))
      (unfold orphan in scanned),
  unfold record_of_row orphan new_exec_record_from_db parse_status in refl,
  unfold record_of_row orphan new_exec_record_from_db in refl,
  unfold record_of_row orphan new_exec_record_from_db in refl,
  unfold record_of_row orphan new_exec_record_from_db in refl,
  unfold record_of_row orphan in
      output-loaded row.id row.sandbox_id row.command row.cwd env row.background
        row.max_output_bytes (negsuc 0) row.truncated "adapter_restarted" row.started_at now
        (parse_status "errored") (or_zero [] row.stdout_blob) (or_zero [] row.stderr_blob),
)
