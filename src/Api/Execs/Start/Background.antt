-- ===== src/Api/Execs/Start/Background.antt =====
-- A background exec from the request on, among whatever else goroutines do to the registry.
use microvm_agentic_sandbox.Prelude.{
  ℕ, ◌≡◌, refl, sym, ap, subst, ◌∙◌, String, Bool, true, false, none, some, List, [], ◌∷◌, ◌++◌,
  pos, All,
}
use microvm_agentic_sandbox.Prelude.Dict
use microvm_agentic_sandbox.Exec.Record.{ExecRecord, clamp_output, new_exec_record}
use microvm_agentic_sandbox.Exec.Record.Sends.{Call}
use microvm_agentic_sandbox.Exec.Record.Refine.{
  Represents, IsProper, empty_log, log_all, new_exec_record-Represents,
}
use microvm_agentic_sandbox.Exec.Record.Kept.{identity}
use microvm_agentic_sandbox.Exec.Table.{EnvCodec}
use microvm_agentic_sandbox.Exec.Registry.{held, Registry, Reply, ok, err}
use microvm_agentic_sandbox.Exec.Registry.Index.{IsIndexed}
use microvm_agentic_sandbox.Exec.Registry.Rollback.{register-IsRegistered, register-IsIndexed}
use microvm_agentic_sandbox.Exec.Registry.Actions.{Action, run, IsNew, Allowed, Leaves, writes_at}
use microvm_agentic_sandbox.Exec.Registry.Actions.Agree.{placed-IsIndexed}
use microvm_agentic_sandbox.Exec.Registry.Actions.Alone.{run-alone}
use microvm_agentic_sandbox.Api.Drain.{ExecChunk}
use microvm_agentic_sandbox.Api.Drain.Laws.{write_self}
use microvm_agentic_sandbox.Api.Drain.Calls.{drain_calls, drain_calls-IsProper, log_drain}
use microvm_agentic_sandbox.Api.Types.{ExecRequest}
use microvm_agentic_sandbox.Api.Http.{exec_body, output_body, write_json, Texts, Decoded, go}
use microvm_agentic_sandbox.Api.Execs.{Server, Faults, get_output_handler}
use microvm_agentic_sandbox.Api.Execs.Outputs.{get_exec-held, get_output-found}
use microvm_agentic_sandbox.Api.Execs.Start.Logged.{
  finished_output, logged_output, exec_output-logged,
}
use microvm_agentic_sandbox.Api.Execs.Start.{
  AgentRequest, Lifetime, StartReply, streams, Moment, max_output_of, with_registry, create_checks,
  record_for, placed, agent_request, lifetime, accepted, on_start, on_register, on_checks,
  create_handler,
}
use microvm_agentic_sandbox.Api.Execs.Start.Foreground.{registration, made, place_id}

all_left : (xs ys : List Call) → All IsProper (xs ++ ys) → All IsProper xs
all_left [] ys h = tt
all_left (x ∷ xs) ys (p, h) = (p, all_left xs ys h)

module _ (codec : EnvCodec) (texts : Texts) (faults : Faults) (moment : Moment)
    (sandbox_id exec_id : String) (agent_exec : ℕ → AgentRequest → Lifetime → StartReply) where
  -- The registry once the record is registered.
  abbrev begun : ExecRequest → Server → Registry
  begun req s = (registration codec texts faults moment sandbox_id exec_id agent_exec req s).1

  abbrev fresh : ExecRequest → ExecRecord
  fresh req = made codec texts faults moment sandbox_id exec_id agent_exec req

  create_handler-accepted :
      (body : Decoded ExecRequest) (s : Server) (ac : ℕ) (req : ExecRequest)
      (chunks : List ExecChunk) (timed_out : Bool)
      → create_checks codec texts faults moment sandbox_id exec_id agent_exec body s
        ≡ go (some ac, req)
      → (registration codec texts faults moment sandbox_id exec_id agent_exec req s).0 ≡ ok tt
      → agent_exec ac
          (agent_request codec texts faults moment sandbox_id exec_id agent_exec req)
          (lifetime codec texts faults moment sandbox_id exec_id agent_exec req)
        ≡ streams chunks timed_out
      → req.background ≡ true
      → create_handler codec texts faults moment sandbox_id exec_id agent_exec body s
        ≡ accepted codec texts faults moment sandbox_id exec_id agent_exec
            (with_registry s (begun req s))
  unfolding create_handler
  create_handler-accepted body s ac req chunks timed_out checked registered streaming background =
      rw (checked, on_checks) (registered_then _ refl registered)
    where
      registered_then :
          (o : Reply (Unit {0}) × Registry)
          → registration codec texts faults moment sandbox_id exec_id agent_exec req s ≡ o
          → o.0 ≡ ok tt
          → on_register codec texts faults moment sandbox_id exec_id agent_exec req (some ac) o s
            ≡ accepted codec texts faults moment sandbox_id exec_id agent_exec (with_registry s o.1)
      registered_then (err e, registry) same h = cc
      registered_then (ok u, registry) same h = rw (streaming, on_start, background) refl

  begun-IsIndexed :
      (req : ExecRequest) (s : Server)
      → IsIndexed s.registry
      → IsNew moment.place s.registry
      → IsIndexed (begun req s)
  begun-IsIndexed req s v new =
      register-IsIndexed codec moment.insert_fault moment.place _
        (unfold placed in placed-IsIndexed moment.place (fresh req) s.registry new v)

  begun-heap :
      (req : ExecRequest) (s : Server)
      → (registration codec texts faults moment sandbox_id exec_id agent_exec req s).0 ≡ ok tt
      → (begun req s).heap moment.place ≡ fresh req
  begun-heap req s registered =
      ap (λ heap. heap moment.place)
        (register-IsRegistered codec moment.insert_fault moment.place
          (placed codec texts faults moment sandbox_id exec_id agent_exec req s.registry)
          registered).same_heap
      ∙ (unfold placed in write_self moment.place (fresh req) s.registry.heap)

  begun-held :
      (req : ExecRequest) (s : Server)
      → (registration codec texts faults moment sandbox_id exec_id agent_exec req s).0 ≡ ok tt
      → Dict.get (begun req s).records exec_id ≡ some moment.place
  begun-held req s registered =
      ap (Dict.get (begun req s).records)
        (sym (place_id codec texts faults moment sandbox_id exec_id agent_exec req s))
      ∙ (register-IsRegistered codec moment.insert_fault moment.place
          (placed codec texts faults moment sandbox_id exec_id agent_exec req s.registry)
          registered).in_records

  fresh-identity : (req : ExecRequest) → identity (fresh req) ≡ (exec_id, sandbox_id)
  fresh-identity req = unfold record_for new_exec_record in refl

  fresh-Represents :
      (m : ℕ) (req : ExecRequest)
      → clamp_output (max_output_of req.max_output_bytes) ≡ pos m
      → Represents m (fresh req) empty_log
  fresh-Represents m req limit =
      unfold record_for in
      new_exec_record-Represents exec_id sandbox_id (req.command ∷ []) req.environment req.cwd
        req.background (max_output_of req.max_output_bytes) moment.started m limit

  -- A background `Create` whose tests pass, whose record is allocated at a new place and registered, and
  -- whose exec the agent starts, with limit m, in a registry whose maps agree, answers 202. After it,
  -- let goroutines act on the registry, piece by piece and in any order, where the sandbox is not
  -- deleted; a record is allocated where none is held, and no other is entered under its id until its
  -- INSERT is over; a record is written again only when the last chunk is sent, and no send meets a
  -- closed channel (which would panic, and end the adapter); and what is written to the record of the
  -- exec are the first writes of the drain, in their order. Then `GetOutput` answers 200 with the first
  -- m bytes of what these writes say, split by pipe, whether there were more, and the first end among
  -- them; and once all writes of the drain are made, that is what the agent's frames say and the end
  -- they ask for.
  pub create_handler_background :
      (body : Decoded ExecRequest) (s : Server) (ac : ℕ) (req : ExecRequest)
      (chunks : List ExecChunk) (timed_out : Bool) (m : ℕ) (actions : List Action)
      (rest : List Call)
      → create_checks codec texts faults moment sandbox_id exec_id agent_exec body s
        ≡ go (some ac, req)
      → (registration codec texts faults moment sandbox_id exec_id agent_exec req s).0 ≡ ok tt
      → agent_exec ac
          (agent_request codec texts faults moment sandbox_id exec_id agent_exec req)
          (lifetime codec texts faults moment sandbox_id exec_id agent_exec req)
        ≡ streams chunks timed_out
      → req.background ≡ true
      → clamp_output (max_output_of req.max_output_bytes) ≡ pos m
      → IsIndexed s.registry
      → IsNew moment.place s.registry
      → Allowed actions
          (create_handler codec texts faults moment sandbox_id exec_id agent_exec body s).1.registry
      → All (Leaves sandbox_id moment.place) actions
      → writes_at moment.place actions ++ rest ≡ drain_calls moment.ended false chunks
      → ((create_handler codec texts faults moment sandbox_id exec_id agent_exec body s).0
          ≡ go (
              write_json 202 (
                exec_body (record {
                  exec_id = exec_id;
                  exit_code = none;
                  out = [];
                  err = [];
                  truncated = false;
                }))))
        × (get_output_handler codec texts faults sandbox_id exec_id (
              with_registry s (
                run actions
                  (create_handler codec texts faults moment sandbox_id exec_id agent_exec body
                    s).1.registry))
            ≡ go (
                write_json 200 (
                  output_body (
                    logged_output exec_id m (log_all (writes_at moment.place actions) empty_log)))))
        × (logged_output exec_id m (log_all (drain_calls moment.ended false chunks) empty_log)
            ≡ finished_output exec_id m chunks)
  unfolding accepted
  create_handler_background body s ac req chunks timed_out m actions rest checked registered
        streaming background limit v new allowed leaves part =
      let answered =
        create_handler-accepted body s ac req chunks timed_out checked registered streaming
          background in
      let start = ap (λ r. r.1.registry) answered in
      let drained = drain_calls-IsProper moment.ended false chunks in
      let proper : All IsProper (writes_at moment.place actions) =
        all_left (writes_at moment.place actions) rest (subst (All IsProper) (sym part) drained) in
      let made_here = begun-heap req s registered in
      let who = ap identity made_here ∙ fresh-identity req in
      let (held_there, alike, represents) =
        run-alone actions (begun req s) sandbox_id exec_id moment.place m empty_log
          (begun-IsIndexed req s v new) (subst (Allowed actions) start allowed) leaves
          (ap (λ i. i.1) who) (begun-held req s registered) proper
          (subst (λ r. Represents m r empty_log) (sym made_here) (fresh-Represents m req limit)) in
      let kept = alike ∙ who in
      (
        ap (λ r. r.0) answered,
        ap
              (λ t.
                get_output_handler codec texts faults sandbox_id exec_id
                  (with_registry s (run actions t)))
              start
            ∙ get_output-found codec texts faults sandbox_id exec_id (held moment.place)
                (with_registry s (run actions (begun req s)))
                (get_exec-held codec faults.registry_query exec_id moment.place _ held_there)
                (ap (λ i. i.1) kept)
            ∙ ap (λ b. go (write_json 200 (output_body b)))
                (exec_output-logged exec_id m _ _ (ap (λ i. i.0) kept) represents),
        ap (logged_output exec_id m) (log_drain moment.ended chunks []),
      )
