-- ===== src/Agent/Stdin.antt =====
-- Bytes for the stdin of an exec, from the client of the adapter to the child in the sandbox:
-- adapter/internal/api/exec.go, adapter/internal/agent/client.go and guest-agent/server.go.
use microvm_agentic_sandbox.Prelude.{
  ℕ, ◌≡◌, refl, sym, String, Bool, true, false, ◌&&◌, Option, some, none, List, [], ◌∷◌, ◌++◌,
  append_assoc, append-nil, str_eq, Bytes, All,
}
use microvm_agentic_sandbox.Prelude.Dict
use microvm_agentic_sandbox.Exec.Table.{EnvCodec}
use microvm_agentic_sandbox.Guest.{
  GuestEffect, stdin_written, stdin_closed, AgentServer, Code, internal, stdin_write, write_stdin,
  close_stdin,
}
use microvm_agentic_sandbox.Api.Base64.{encode_to_string}
use microvm_agentic_sandbox.Api.Base64.RoundTrip.{IsByte}
use microvm_agentic_sandbox.Api.Http.{HttpResponse, Texts, write_error, no_content, body_of, go}
use microvm_agentic_sandbox.Api.Execs.{Server, Faults, own_client, agent_answer, stdin_handler}
use microvm_agentic_sandbox.Api.Execs.Payload.{stdin_handler-base64}
use microvm_agentic_sandbox.Agent.{client_stdin_write}
use microvm_agentic_sandbox.Agent.Guests.{Child, guest_stub}

-- What the child is to be given: the bytes, if there are any, and then the end.
abbrev pub given : ℕ → Bytes → Bool → List GuestEffect
given child [] false = []
given child [] true = stdin_closed child ∷ []
given child (b ∷ bs) false = stdin_written child (b ∷ bs) ∷ []
given child (b ∷ bs) true = stdin_written child (b ∷ bs) ∷ stdin_closed child ∷ []

-- What the client of the adapter is answered, by what becomes of the bytes in the guest agent.
pub data IsPassedOn (texts : Texts) (exec_id : String) (bs : Bytes) (eof : Bool) (os : Child)
    (g : AgentServer) : HttpResponse → AgentServer → Type 0 where
  not_running :
      Dict.get g.execs exec_id ≡ none
      → IsPassedOn texts exec_id bs eof os g
          (write_error 404 "exec_not_running" "exec is not currently running on the agent")
          g
  taken :
      (child : ℕ) (t : AgentServer)
      → Dict.get g.execs exec_id ≡ some child
      → t.effects ≡ g.effects ++ given child bs eof
      → t.execs ≡ g.execs
      → IsPassedOn texts exec_id bs eof os g no_content t
  refused :
      (child : ℕ) (t : AgentServer)
      → Dict.get g.execs exec_id ≡ some child
      → os.writes && os.closes ≡ false
      → t.execs ≡ g.execs
      → IsPassedOn texts exec_id bs eof os g
          (write_error 500 "stdin_failed" (texts.of_agent internal))
          t

and_false : (b : Bool) → b && false ≡ false
and_false true = refl
and_false false = refl

module _ (texts : Texts) (exec_id : String) (os : Child) (g : AgentServer) where
  abbrev Passed : Bytes → Bool → Code × AgentServer → Type 0
  Passed bs eof r = IsPassedOn texts exec_id bs eof os g (agent_answer texts "stdin_failed" r.0) r.1

  module _ (child : ℕ) (found : Dict.get g.execs exec_id ≡ some child) where
    written-Passed :
        (bs : Bytes) (eof writes closes : Bool)
        → os.writes ≡ writes
        → os.closes ≡ closes
        → Passed bs eof (write_stdin bs eof writes closes child g)
    unfolding write_stdin close_stdin agent_answer
    written-Passed [] false writes closes hw hc =
        taken child g found (sym (append-nil g.effects)) refl
    written-Passed [] true writes true hw hc = taken child _ found refl refl
    written-Passed [] true writes false hw hc =
        refused child g found (rw hc (and_false os.writes)) refl
    written-Passed (b ∷ bs) eof false closes hw hc = refused child g found (rw hw refl) refl
    written-Passed (b ∷ bs) false true closes hw hc = taken child _ found refl refl
    written-Passed (b ∷ bs) true true true hw hc =
        taken child _ found
          (append_assoc g.effects (stdin_written child (b ∷ bs) ∷ []) (stdin_closed child ∷ []))
          refl
    written-Passed (b ∷ bs) true true false hw hc =
        refused child _ found (rw hc (and_false os.writes)) refl

  stdin_write-Passed :
      (bs : Bytes) (eof : Bool) (o : Option ℕ)
      → str_eq exec_id "" ≡ false
      → Dict.get g.execs exec_id ≡ o
      → Passed bs eof (stdin_write exec_id bs eof os.writes os.closes g)
  unfolding stdin_write agent_answer
  stdin_write-Passed bs eof none named found = rw (named, found, stdin_write) (not_running found)
  stdin_write-Passed bs eof (some child) named found =
      rw (named, found, stdin_write) (written-Passed child found bs eof _ _ refl refl)

-- A stdin request in base64, for a live sandbox with a dialed agent and an exec of it, over the client of
-- a guest agent: if that has no exec under the id, the answer is 404 exec_not_running and nothing is
-- done; else, if the operating system takes the write and the close, it is 204 and the child of the
-- exec is given exactly the bytes of the request, and the end of its stdin if that was asked; the
-- answer is 500 only where the write or the close is refused. The execs that run stay.
pub stdin_handler-IsPassedOn :
    (codec : EnvCodec) (texts : Texts) (faults : Faults) (sandbox_id exec_id : String) (s : Server)
    (ac : ℕ) (bs : Bytes) (eof : Bool) (os : Child) (g : AgentServer)
    → own_client codec texts faults sandbox_id exec_id s ≡ go (some ac)
    → All IsByte bs
    → str_eq exec_id "" ≡ false
    → (answer : HttpResponse) × (stdin_handler codec texts faults sandbox_id exec_id s
          (λ client id bytes last. (client_stdin_write (guest_stub os) id bytes last g).0)
          (body_of (record { payload = encode_to_string bs; encoding = "base64"; eof = eof }))
        ≡ go answer)
      × IsPassedOn texts exec_id bs eof os g answer
          (client_stdin_write (guest_stub os) exec_id bs eof g).1
unfolding client_stdin_write
stdin_handler-IsPassedOn codec texts faults sandbox_id exec_id s ac bs eof os g dialed valid named =
    (
      agent_answer texts "stdin_failed" (stdin_write exec_id bs eof os.writes os.closes g).0,
      stdin_handler-base64 codec texts faults sandbox_id exec_id s _ ac bs eof dialed valid,
      stdin_write-Passed texts exec_id os g bs eof _ named refl,
    )
