-- ===== src/Api/Execs/Owners.antt =====
-- An exec of another sandbox.
use microvm_agentic_sandbox.Prelude.{ℕ, ◌≡◌, refl, sym, ◌∙◌, String, Bool, false, str_eq, Bytes}
use microvm_agentic_sandbox.Exec.Load.{snapshot}
use microvm_agentic_sandbox.Exec.Table.{EnvCodec}
use microvm_agentic_sandbox.Exec.Registry.{Registry, ok, err, exec_not_found, Ref, get_exec}
use microvm_agentic_sandbox.Guest.{Code}
use microvm_agentic_sandbox.Api.Types.{StdinRequest, SignalRequest}
use microvm_agentic_sandbox.Api.Http.{Texts, Decoded, stop}
use microvm_agentic_sandbox.Api.Execs.{
  Server, Faults, exec_missing, record_at, found_exec, check_owner, own_exec, own_client,
  get_handler, get_output_handler, stdin_handler, signal_handler,
}

own_exec-foreign :
    (codec : EnvCodec) (texts : Texts) (fault : Bool) (sandbox_id exec_id : String) (s : Registry)
    (ref : Ref)
    → get_exec codec fault exec_id s ≡ ok ref
    → str_eq (record_at s ref).sandbox_id sandbox_id ≡ false
    → own_exec codec texts fault sandbox_id exec_id s ≡ stop exec_missing
unfolding own_exec snapshot
own_exec-foreign codec texts fault sandbox_id exec_id s ref found foreign =
    rw (found, found_exec) (rw (foreign, check_owner) refl)

own_exec-absent :
    (codec : EnvCodec) (texts : Texts) (fault : Bool) (sandbox_id exec_id : String) (s : Registry)
    → get_exec codec fault exec_id s ≡ err exec_not_found
    → own_exec codec texts fault sandbox_id exec_id s ≡ stop exec_missing
unfolding own_exec
own_exec-absent codec texts fault sandbox_id exec_id s absent = rw (absent, found_exec) refl

-- A client of one sandbox cannot tell an exec of another sandbox from one that does not exist: where
-- the registry finds the exec for another sandbox, and some other registry does not find it, `Get`,
-- `GetOutput`, `Stdin` and `Signal` end in the same way with either, whatever the request and the
-- agent.
pub foreign_exec_hidden :
    (codec : EnvCodec) (texts : Texts) (faults : Faults) (sandbox_id exec_id : String) (s : Server)
    (other : Registry) (ref : Ref) (stdin_write : ℕ → String → Bytes → Bool → Code)
    (stdin_body : Decoded StdinRequest) (send_signal : ℕ → String → ℕ → Code)
    (signal_body : Decoded SignalRequest)
    → get_exec codec faults.registry_query exec_id s.registry ≡ ok ref
    → str_eq (record_at s.registry ref).sandbox_id sandbox_id ≡ false
    → get_exec codec faults.registry_query exec_id other ≡ err exec_not_found
    → (get_handler codec texts faults sandbox_id exec_id s
        ≡ get_handler codec texts faults sandbox_id exec_id (record s { registry = other }))
      × (get_output_handler codec texts faults sandbox_id exec_id s
          ≡ get_output_handler codec texts faults sandbox_id exec_id
              (record s { registry = other }))
      × (stdin_handler codec texts faults sandbox_id exec_id s stdin_write stdin_body
          ≡ stdin_handler codec texts faults sandbox_id exec_id
              (record s { registry = other })
              stdin_write
              stdin_body)
      × (signal_handler codec texts faults sandbox_id exec_id s send_signal signal_body
          ≡ signal_handler codec texts faults sandbox_id exec_id
              (record s { registry = other })
              send_signal
              signal_body)
unfolding get_handler get_output_handler stdin_handler signal_handler own_client
foreign_exec_hidden codec texts faults sandbox_id exec_id s other ref stdin_write stdin_body
      send_signal signal_body found foreign absent =
    let same : own_exec codec texts faults.registry_query sandbox_id exec_id s.registry
        ≡ own_exec codec texts faults.registry_query sandbox_id exec_id other =
      own_exec-foreign codec texts faults.registry_query sandbox_id exec_id s.registry ref found
        foreign
      ∙ sym (own_exec-absent codec texts faults.registry_query sandbox_id exec_id other absent) in
    (rw same refl, rw same refl, rw same refl, rw same refl)
