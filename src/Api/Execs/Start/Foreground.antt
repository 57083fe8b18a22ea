-- ===== src/Api/Execs/Start/Foreground.antt =====
-- A foreground exec from the request to the answer, and what is read of it afterwards.
use microvm_agentic_sandbox.Prelude.{
  ℕ, ◌≡◌, refl, sym, ap, subst, ◌∙◌, String, Bool, false, some, List, [], ◌∷◌, if◌then◌else◌, pos,
  Bool-cases, inl, inr,
}
use microvm_agentic_sandbox.Prelude.Dict
use microvm_agentic_sandbox.Exec.Chunk.{is_running}
use microvm_agentic_sandbox.Exec.Record.{ExecRecord, clamp_output, new_exec_record}
use microvm_agentic_sandbox.Exec.Record.Sends.{perform_all}
use microvm_agentic_sandbox.Exec.Record.Refine.{
  Represents, empty_log, perform_all-Represents, new_exec_record-Represents,
}
use microvm_agentic_sandbox.Exec.Record.Kept.{identity, perform_all-identity}
use microvm_agentic_sandbox.Api.Drain.Maps.{drain_into_record-records}
use microvm_agentic_sandbox.Exec.Table.{EnvCodec}
use microvm_agentic_sandbox.Exec.Registry.{Registry, Reply, ok, err, held, register, get_exec}
use microvm_agentic_sandbox.Exec.Registry.Rollback.{register-IsRegistered}
use microvm_agentic_sandbox.Api.Drain.{ExecChunk, drain_into_record}
use microvm_agentic_sandbox.Api.Drain.Laws.{stream_ending, write_self}
use microvm_agentic_sandbox.Api.Drain.Calls.{
  drain_calls, drain_calls-IsProper, drain_into_record-calls, log_drain,
}
use microvm_agentic_sandbox.Api.Types.{ExecRequest}
use microvm_agentic_sandbox.Api.Http.{exec_body, output_body, write_json, Texts, Decoded, go}
use microvm_agentic_sandbox.Api.Execs.{Server, Faults, get_output_handler}
use microvm_agentic_sandbox.Api.Execs.Outputs.{get_exec-held, get_output-found}
use microvm_agentic_sandbox.Api.Execs.Start.Logged.{
  exec_log, finished_body, finished_output, exec_response-finished, exec_output-finished,
}
use microvm_agentic_sandbox.Api.Execs.Start.{
  AgentRequest, Lifetime, StartReply, streams, Moment, max_output_of, with_registry, create_checks,
  record_for, placed, agent_request, lifetime, drained, on_start, on_register, on_checks,
  create_handler,
}

stream_ending-over : (chunks : List ExecChunk) → is_running (stream_ending chunks).status ≡ false
stream_ending-over [] = refl
stream_ending-over (c ∷ chunks) = elim (Bool-cases c.is_last) [
  | inl e ↦ rw e refl
  | inr e ↦ rw e (stream_ending-over chunks)
]

module _ (codec : EnvCodec) (texts : Texts) (faults : Faults) (moment : Moment)
    (sandbox_id exec_id : String) (agent_exec : ℕ → AgentRequest → Lifetime → StartReply) where
  -- What `Register` makes of the new record.
  abbrev pub registration : ExecRequest → Server → Reply (Unit {0}) × Registry
  registration req s =
      register codec moment.insert_fault moment.place
        (placed codec texts faults moment sandbox_id exec_id agent_exec req s.registry)

  -- The registry after the drain.
  abbrev after : ExecRequest → List ExecChunk → Server → Registry
  after req chunks s =
      drain_into_record moment.persist_fault moment.place moment.ended chunks (registration req s).1

  abbrev pub made : ExecRequest → ExecRecord
  made req = record_for codec texts faults moment sandbox_id exec_id agent_exec req

  create_handler-drained :
      (body : Decoded ExecRequest) (s : Server) (ac : ℕ) (req : ExecRequest)
      (chunks : List ExecChunk) (timed_out : Bool)
      → create_checks codec texts faults moment sandbox_id exec_id agent_exec body s
        ≡ go (some ac, req)
      → (registration req s).0 ≡ ok tt
      → agent_exec ac
          (agent_request codec texts faults moment sandbox_id exec_id agent_exec req)
          (lifetime codec texts faults moment sandbox_id exec_id agent_exec req)
        ≡ streams chunks timed_out
      → req.background ≡ false
      → create_handler codec texts faults moment sandbox_id exec_id agent_exec body s
        ≡ drained codec texts faults moment sandbox_id exec_id agent_exec chunks timed_out
            (with_registry s (registration req s).1)
  unfolding create_handler
  create_handler-drained body s ac req chunks timed_out checked registered started foreground =
      rw (checked, on_checks) (registered_then _ refl registered)
    where
      registered_then :
          (o : Reply (Unit {0}) × Registry)
          → registration req s ≡ o
          → o.0 ≡ ok tt
          → on_register codec texts faults moment sandbox_id exec_id agent_exec req (some ac) o s
            ≡ drained codec texts faults moment sandbox_id exec_id agent_exec chunks timed_out
                (with_registry s o.1)
      registered_then (err e, registry) same h = cc
      registered_then (ok u, registry) same h = rw (started, on_start, foreground) refl

  record_after :
      (req : ExecRequest) (chunks : List ExecChunk) (s : Server)
      → (registration req s).0 ≡ ok tt
      → (after req chunks s).heap moment.place
        ≡ perform_all (drain_calls moment.ended false chunks) (made req)
  record_after req chunks s registered =
      drain_into_record-calls moment.persist_fault moment.place moment.ended chunks
        (registration req s).1
      ∙ ap (perform_all (drain_calls moment.ended false chunks)) (
          ap (λ heap. heap moment.place)
            (register-IsRegistered codec moment.insert_fault moment.place
              (placed codec texts faults moment sandbox_id exec_id agent_exec req s.registry)
              registered).same_heap
          ∙ (unfold placed in write_self moment.place (made req) s.registry.heap))

  after-Represents :
      (m : ℕ) (req : ExecRequest) (chunks : List ExecChunk)
      → clamp_output (max_output_of req.max_output_bytes) ≡ pos m
      → Represents m
          (perform_all (drain_calls moment.ended false chunks) (made req))
          (exec_log moment.ended chunks)
  after-Represents m req chunks limit =
      subst (Represents m (perform_all (drain_calls moment.ended false chunks) (made req)))
        (log_drain moment.ended chunks [])
        (perform_all-Represents (drain_calls moment.ended false chunks) m (made req) empty_log
          (unfold record_for in
            new_exec_record-Represents exec_id sandbox_id (req.command ∷ []) req.environment req.cwd
              req.background (max_output_of req.max_output_bytes) moment.started m limit)
          (drain_calls-IsProper moment.ended false chunks))

  identity_after :
      (req : ExecRequest) (chunks : List ExecChunk)
      → identity (perform_all (drain_calls moment.ended false chunks) (made req))
        ≡ (exec_id, sandbox_id)
  identity_after req chunks =
      perform_all-identity (drain_calls moment.ended false chunks) (made req)
      ∙ (unfold record_for new_exec_record in refl)

  pub place_id :
      (req : ExecRequest) (s : Server)
      → ((placed codec texts faults moment sandbox_id exec_id agent_exec req s.registry).heap
          moment.place).id
        ≡ exec_id
  unfolding placed record_for new_exec_record
  place_id req s = ap (λ r. r.id) (write_self moment.place (made req) s.registry.heap)

  held_after :
      (lost : Bool) (req : ExecRequest) (chunks : List ExecChunk) (s : Server)
      → (registration req s).0 ≡ ok tt
      → get_exec codec lost exec_id (after req chunks s) ≡ ok (held moment.place)
  held_after lost req chunks s registered =
      get_exec-held codec lost exec_id moment.place (after req chunks s) (
        ap (λ records. Dict.get records exec_id)
          (drain_into_record-records moment.persist_fault moment.place moment.ended chunks
            (registration req s).1)
        ∙ ap (Dict.get (registration req s).1.records) (sym (place_id req s))
        ∙ (register-IsRegistered codec moment.insert_fault moment.place
            (placed codec texts faults moment sandbox_id exec_id agent_exec req s.registry)
            registered).in_records)

  -- A foreground `Create` whose tests pass, whose record is registered and whose exec the agent starts,
  -- with limit m for the output: the answer is 200, or 408 if the timeout fired, with the exit code
  -- that the agent's frames ask for and the first m bytes of what they say, split by pipe, and says
  -- whether there were more; and `GetOutput` then answers 200 with the same, and a status that is not
  -- running.
  pub create_handler_foreground :
      (body : Decoded ExecRequest) (s : Server) (ac : ℕ) (req : ExecRequest)
      (chunks : List ExecChunk) (timed_out : Bool) (m : ℕ)
      → create_checks codec texts faults moment sandbox_id exec_id agent_exec body s
        ≡ go (some ac, req)
      → (registration req s).0 ≡ ok tt
      → agent_exec ac
          (agent_request codec texts faults moment sandbox_id exec_id agent_exec req)
          (lifetime codec texts faults moment sandbox_id exec_id agent_exec req)
        ≡ streams chunks timed_out
      → req.background ≡ false
      → clamp_output (max_output_of req.max_output_bytes) ≡ pos m
      → ((create_handler codec texts faults moment sandbox_id exec_id agent_exec body s).0
          ≡ go (
              write_json
                (if timed_out then 408 else 200)
                (exec_body (finished_body exec_id m chunks))))
        × (get_output_handler codec texts faults sandbox_id exec_id
              (create_handler codec texts faults moment sandbox_id exec_id agent_exec body s).1
            ≡ go (write_json 200 (output_body (finished_output exec_id m chunks))))
        × (is_running (stream_ending chunks).status ≡ false)
  unfolding drained
  create_handler_foreground body s ac req chunks timed_out m checked registered started foreground
        limit =
      let run =
        create_handler-drained body s ac req chunks timed_out checked registered started
          foreground in
      let same = record_after req chunks s registered in
      let represents =
        subst (λ r. Represents m r (exec_log moment.ended chunks)) (sym same)
          (after-Represents m req chunks limit) in
      let who = ap identity same ∙ identity_after req chunks in
      (
        ap (λ r. r.0) run
            ∙ ap (λ b. go (write_json (if timed_out then 408 else 200) (exec_body b)))
                (exec_response-finished exec_id m _ moment.ended chunks represents),
        ap (λ r. get_output_handler codec texts faults sandbox_id exec_id r.1) run
            ∙ get_output-found codec texts faults sandbox_id exec_id (held moment.place)
                (with_registry s (after req chunks s))
                (held_after faults.registry_query req chunks s registered) (ap (λ i. i.1) who)
            ∙ ap (λ b. go (write_json 200 (output_body b)))
                (exec_output-finished exec_id m _ moment.ended chunks (ap (λ i. i.0) who)
                  represents),
        stream_ending-over chunks,
      )
