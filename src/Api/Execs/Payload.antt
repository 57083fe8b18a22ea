-- ===== src/Api/Execs/Payload.antt =====
-- A stdin payload from the client to the agent.
use microvm_agentic_sandbox.Prelude.{ℕ, ◌≡◌, refl, String, Bool, some, Bytes, All}
use microvm_agentic_sandbox.Exec.Table.{EnvCodec}
use microvm_agentic_sandbox.Guest.{Code}
use microvm_agentic_sandbox.Api.Base64.{encode_to_string}
use microvm_agentic_sandbox.Api.Base64.RoundTrip.{IsByte, decode_string-encode_to_string}
use microvm_agentic_sandbox.Api.Http.{Texts, body_of, go}
use microvm_agentic_sandbox.Api.Execs.{
  Server, Faults, own_client, request, payload_or, client, agent_answer, decode_stdin_payload,
  stdin_handler,
}

payload-encoded :
    (bs : Bytes) → All IsByte bs → decode_stdin_payload (encode_to_string bs) "base64" ≡ some bs
unfolding decode_stdin_payload
payload-encoded bs h = decode_string-encode_to_string bs h

-- For every list of bytes, a live sandbox with a dialed agent and an exec of it: a stdin request that
-- carries the bytes in base64 ends with what the handler makes of the agent's answer to a StdinWrite of
-- exactly these bytes, with the eof that was asked.
pub stdin_handler-base64 :
    (codec : EnvCodec) (texts : Texts) (faults : Faults) (sandbox_id exec_id : String) (s : Server)
    (stdin_write : ℕ → String → Bytes → Bool → Code) (ac : ℕ) (bs : Bytes) (eof : Bool)
    → own_client codec texts faults sandbox_id exec_id s ≡ go (some ac)
    → All IsByte bs
    → stdin_handler codec texts faults sandbox_id exec_id s stdin_write
        (body_of (record { payload = encode_to_string bs; encoding = "base64"; eof = eof }))
      ≡ go (agent_answer texts "stdin_failed" (stdin_write ac exec_id bs eof))
unfolding stdin_handler request payload_or client
stdin_handler-base64 codec texts faults sandbox_id exec_id s stdin_write ac bs eof dialed h =
    rw (dialed, payload-encoded bs h) refl
