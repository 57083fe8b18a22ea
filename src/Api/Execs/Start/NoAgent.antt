-- ===== src/Api/Execs/Start/NoAgent.antt =====
-- `Create` for a sandbox whose agent this adapter has not dialed.
use microvm_agentic_sandbox.Prelude.{ℕ, ◌≡◌, refl, sym, ap, ◌∙◌, String, Bool, true, none}
use microvm_agentic_sandbox.Prelude.Dict
use microvm_agentic_sandbox.Exec.Chunk.{is_running}
use microvm_agentic_sandbox.Exec.Record.{new_exec_record}
use microvm_agentic_sandbox.Exec.Table.{EnvCodec}
use microvm_agentic_sandbox.Exec.Registry.{Registry, Reply, ok, err, held, get_exec}
use microvm_agentic_sandbox.Exec.Registry.Rollback.{register-IsRegistered}
use microvm_agentic_sandbox.Api.Drain.Laws.{write_self}
use microvm_agentic_sandbox.Api.Types.{ExecRequest}
use microvm_agentic_sandbox.Api.Http.{Texts, Decoded, go, panics, write_error, answer}
use microvm_agentic_sandbox.Api.Execs.{Server, Faults}
use microvm_agentic_sandbox.Api.Execs.Start.{
  AgentRequest, Lifetime, StartReply, Moment, with_registry, create_checks, record_for, placed,
  on_register, on_checks, create_handler,
}
use microvm_agentic_sandbox.Api.Execs.Outputs.{get_exec-held}
use microvm_agentic_sandbox.Api.Execs.Start.Foreground.{registration, made, place_id}

module _ (codec : EnvCodec) (texts : Texts) (faults : Faults) (moment : Moment)
    (sandbox_id exec_id : String) (agent_exec : ℕ → AgentRequest → Lifetime → StartReply) where
  create_handler-panics :
      (body : Decoded ExecRequest) (s : Server) (req : ExecRequest)
      → create_checks codec texts faults moment sandbox_id exec_id agent_exec body s
        ≡ go (none, req)
      → (registration codec texts faults moment sandbox_id exec_id agent_exec req s).0 ≡ ok tt
      → create_handler codec texts faults moment sandbox_id exec_id agent_exec body s ≡ (
        panics,
        with_registry s
            (registration codec texts faults moment sandbox_id exec_id agent_exec req s).1,
      )
  unfolding create_handler
  create_handler-panics body s req checked registered =
      rw (checked, on_checks) (then_panics _ refl registered)
    where
      then_panics :
          (o : Reply (Unit {0}) × Registry)
          → registration codec texts faults moment sandbox_id exec_id agent_exec req s ≡ o
          → o.0 ≡ ok tt
          → on_register codec texts faults moment sandbox_id exec_id agent_exec req none o s
            ≡ (panics, with_registry s o.1)
      then_panics (err e, registry) same h = cc
      then_panics (ok u, registry) same h = refl

  -- A `Create` whose tests pass and whose record is registered, for a live sandbox that has no dialed
  -- agent: the handler panics, the client gets 500 internal_error, and the registry goes on to hold
  -- the exec, as running, though nothing runs it.
  pub create_handler_no_agent :
      (body : Decoded ExecRequest) (s : Server) (req : ExecRequest) (lost : Bool)
      → create_checks codec texts faults moment sandbox_id exec_id agent_exec body s
        ≡ go (none, req)
      → (registration codec texts faults moment sandbox_id exec_id agent_exec req s).0 ≡ ok tt
      → (answer (create_handler codec texts faults moment sandbox_id exec_id agent_exec body s).0
          ≡ write_error 500 "internal_error" "internal server error")
        × (get_exec codec lost exec_id
              (create_handler codec texts faults moment sandbox_id exec_id agent_exec body
                s).1.registry
            ≡ ok (held moment.place))
        × (is_running
              ((create_handler codec texts faults moment sandbox_id exec_id agent_exec body
                  s).1.registry.heap
                moment.place).status
            ≡ true)
  unfolding answer placed record_for new_exec_record
  create_handler_no_agent body s req lost checked registered =
      let run = create_handler-panics body s req checked registered in
      let done =
        register-IsRegistered codec moment.insert_fault moment.place
          (placed codec texts faults moment sandbox_id exec_id agent_exec req s.registry)
          registered in
      (
        ap (λ r. answer r.0) run,
        ap (λ r. get_exec codec lost exec_id r.1.registry) run
            ∙ get_exec-held codec lost exec_id moment.place _ (
                ap
                  (Dict.get
                    (registration codec texts faults moment sandbox_id exec_id agent_exec req
                      s).1.records)
                  (sym (place_id codec texts faults moment sandbox_id exec_id agent_exec req s))
                ∙ done.in_records),
        ap (λ r. is_running (r.1.registry.heap moment.place).status) run
            ∙ ap (λ heap. is_running (heap moment.place).status) done.same_heap
            ∙ ap (λ r. is_running r.status)
                (write_self moment.place
                  (made codec texts faults moment sandbox_id exec_id agent_exec req)
                  s.registry.heap),
      )
