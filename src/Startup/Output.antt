-- ===== src/Startup/Output.antt =====
-- The output of an exec that an earlier run of the adapter has stored: adapter/main.go with GET
-- /api/v1/sandboxes/{id}/exec/{exec_id}/output.
use microvm_agentic_sandbox.Prelude.{
  ◌≡◌, refl, ap, ◌∙◌, String, false, some, [], if◌then◌else◌, pos, negsuc, Bool-cases, inl, inr,
  Time,
}
use microvm_agentic_sandbox.Exec.Chunk.{status_string, parse_status}
use microvm_agentic_sandbox.Exec.Record.{Env}
use microvm_agentic_sandbox.Exec.Load.{snapshot, new_exec_record_from_db}
use microvm_agentic_sandbox.Exec.Load.Laws.{output-loaded}
use microvm_agentic_sandbox.Exec.Table.{
  EnvCodec, ExecRow, find_row, or_zero, orphan, scan_env, record_of_row,
}
use microvm_agentic_sandbox.Exec.Registry.{ok, loaded, get_exec}
use microvm_agentic_sandbox.Exec.Registry.Restore.{get_exec-row}
use microvm_agentic_sandbox.Exec.Registry.Closing.{is_open}
use microvm_agentic_sandbox.Api.Types.{ExecOutput}
use microvm_agentic_sandbox.Api.Http.{output_body, write_json, Texts, go}
use microvm_agentic_sandbox.Api.Execs.{Faults, exec_output, get_output_handler, unless_running}
use microvm_agentic_sandbox.Api.Execs.Outputs.{get_output-found}
use microvm_agentic_sandbox.Startup.{Adapter, Flags, Environment, World, up, Outside, start}
use microvm_agentic_sandbox.Startup.Ready.{start-IsReady}

-- What the row of an exec tells after a start: one that was left running has ended.
abbrev pub told : ExecRow → ExecOutput
told row = record {
  exec_id = row.id;
  status = if is_open row then "errored" else status_string (parse_status row.status);
  exit_code =
      if is_open row
      then some (negsuc 0)
      else unless_running (parse_status row.status) (or_zero (pos 0) row.exit_code);
  out = or_zero [] row.stdout_blob;
  err = or_zero [] row.stderr_blob;
  truncated = row.truncated;
}

exec_output-row :
    (row : ExecRow) (env : Env)
    → exec_output (record_of_row row env) ≡ record {
      exec_id = row.id;
      status = status_string (parse_status row.status);
      exit_code = unless_running (parse_status row.status) (or_zero (pos 0) row.exit_code);
      out = or_zero [] row.stdout_blob;
      err = or_zero [] row.stderr_blob;
      truncated = row.truncated;
    }
unfolding exec_output record_of_row snapshot new_exec_record_from_db
exec_output-row row env =
    ap
      (λ b. record {
        exec_id = row.id;
        status = status_string (parse_status row.status);
        exit_code = unless_running (parse_status row.status) (or_zero (pos 0) row.exit_code);
        out = b.0;
        err = b.1;
        truncated = row.truncated;
      })
      (output-loaded row.id row.sandbox_id row.command row.cwd env row.background
        row.max_output_bytes (or_zero (pos 0) row.exit_code) row.truncated
        (or_zero "" row.completion_err) row.started_at (or_zero 0 row.completed_at)
        (parse_status row.status) (or_zero [] row.stdout_blob) (or_zero [] row.stderr_blob))

abbrev closed_row : Time → ExecRow → ExecRow
closed_row now row = if is_open row then orphan now row else row

exec_output-told :
    (now : Time) (row : ExecRow) (env : Env)
    → exec_output (record_of_row (closed_row now row) env) ≡ told row
unfolding orphan parse_status status_string
exec_output-told now row env = exec_output-row (closed_row now row) env ∙ same
  where
    same :
        ◌≡◌ {A = ExecOutput}
          (record {
            exec_id = (closed_row now row).id;
            status = status_string (parse_status (closed_row now row).status);
            exit_code =
                unless_running
                  (parse_status (closed_row now row).status)
                  (or_zero (pos 0) (closed_row now row).exit_code);
            out = or_zero [] (closed_row now row).stdout_blob;
            err = or_zero [] (closed_row now row).stderr_blob;
            truncated = (closed_row now row).truncated;
          })
          (told row)
    same = elim (Bool-cases (is_open row)) [ inl e ↦ rw e refl | inr e ↦ rw e refl ]

environment-closed :
    (now : Time) (row : ExecRow) → (closed_row now row).environment ≡ row.environment
unfolding orphan
environment-closed now row = elim (Bool-cases (is_open row)) [
  | inl e ↦ rw e refl
  | inr e ↦ rw e refl
]

sandbox_id-closed : (now : Time) (row : ExecRow) → (closed_row now row).sandbox_id ≡ row.sandbox_id
unfolding orphan
sandbox_id-closed now row = elim (Bool-cases (is_open row)) [
  | inl e ↦ rw e refl
  | inr e ↦ rw e refl
]

-- Where `main` comes to serve: for every exec whose row was in the table with an environment that can be
-- read, the first `GetOutput` for the sandbox of the row, whose query reaches the database, answers
-- 200 with the stored output and truncation flag; the status is errored and the exit code -1 if the
-- row was left running, and else they are those of the row.
pub start-GetOutput :
    (w : World) (flags : Flags) (env : Environment) (o p : Outside) (adapter : Adapter)
    (codec : EnvCodec) (texts : Texts) (faults : Faults) (exec_id : String) (row : ExecRow)
    (vars : Env)
    → start w flags env o ≡ (up adapter, p)
    → faults.registry_query ≡ false
    → find_row exec_id o.database.execs ≡ some row
    → scan_env codec row.environment ≡ some vars
    → get_output_handler codec texts faults row.sandbox_id exec_id adapter.server
      ≡ go (write_json 200 (output_body (told row)))
start-GetOutput w flags env o p adapter codec texts faults exec_id row vars h asked found scanned =
    let ready = start-IsReady w flags env o p adapter h in
    let now = w.closed_at in
    let stored : find_row exec_id adapter.server.registry.execs ≡ some (closed_row now row) =
      ready.execs.rows exec_id ∙ rw found refl in
    let looked_up : get_exec codec faults.registry_query exec_id adapter.server.registry
        ≡ ok (loaded (record_of_row (closed_row now row) vars)) =
      rw asked (
        get_exec-row codec exec_id adapter.server.registry (closed_row now row) vars
          (ready.execs.none_held exec_id) stored (rw (environment-closed now row) scanned)) in
    get_output-found codec texts faults row.sandbox_id exec_id _ adapter.server looked_up
      (unfold record_of_row new_exec_record_from_db in sandbox_id-closed now row)
    ∙ ap (λ b. go (write_json 200 (output_body b))) (exec_output-told now row vars)
