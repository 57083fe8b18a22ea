-- ===== src/Api/Execs/Outputs.antt =====
-- What `GetOutput` answers for an exec that is found.
use microvm_agentic_sandbox.Prelude.{ℕ, ◌≡◌, refl, String, Bool, some, eq_iff}
use microvm_agentic_sandbox.Prelude.Dict
use microvm_agentic_sandbox.Exec.Load.{snapshot}
use microvm_agentic_sandbox.Exec.Table.{EnvCodec}
use microvm_agentic_sandbox.Exec.Registry.{Registry, Ref, held, ok, get_exec}
use microvm_agentic_sandbox.Api.Http.{output_body, write_json, Texts, go}
use microvm_agentic_sandbox.Api.Execs.{
  Server, Faults, record_at, found_exec, own_exec, exec_output, get_output_handler,
}

pub get_exec-held :
    (codec : EnvCodec) (lost : Bool) (id : String) (p : ℕ) (s : Registry)
    → Dict.get s.records id ≡ some p
    → get_exec codec lost id s ≡ ok (held p)
unfolding get_exec
get_exec-held codec lost id p s h = rw (h, get_exec) refl

-- The output of the record, for the sandbox that it belongs to.
pub get_output-found :
    (codec : EnvCodec) (texts : Texts) (faults : Faults) (sandbox_id exec_id : String) (ref : Ref)
    (s : Server)
    → get_exec codec faults.registry_query exec_id s.registry ≡ ok ref
    → (record_at s.registry ref).sandbox_id ≡ sandbox_id
    → get_output_handler codec texts faults sandbox_id exec_id s
      ≡ go (write_json 200 (output_body (exec_output (record_at s.registry ref))))
unfolding get_output_handler own_exec snapshot
get_output-found codec texts faults sandbox_id exec_id ref s found mine =
    rw (found, found_exec)
      (rw ((eq_iff (record_at s.registry ref).sandbox_id sandbox_id).1 mine) refl)
