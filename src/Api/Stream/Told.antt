-- ===== src/Api/Stream/Told.antt =====
-- The output of an exec as a client of its stream reads it.
use microvm_agentic_sandbox.Prelude.{
  ℕ, ◌*◌, ◌≤◌, ◌<◌, ◌≡◌, refl, sym, ap, ◌∙◌, String, Bool, false, Option, none, some, List, [], ◌∷◌,
  ◌++◌, map, if◌then◌else◌, str_eq, Bytes, u64_mod, length, All,
}
use microvm_agentic_sandbox.Exec.Chunk.{ChunkKind, stdout, stderr, done, Chunk, is_done, is_running}
use microvm_agentic_sandbox.Exec.Channel.{channel_capacity}
use microvm_agentic_sandbox.Exec.Record.{ExecRecord, output}
use microvm_agentic_sandbox.Exec.Record.Stream.{tag, tagged}
use microvm_agentic_sandbox.Exec.Record.Invariant.{IsValid}
use microvm_agentic_sandbox.Exec.Record.Output.{
  same_kind, select, select-append, select-tag, output-select,
}
use microvm_agentic_sandbox.Exec.Table.{EnvCodec}
use microvm_agentic_sandbox.Api.Base64.{decode_string}
use microvm_agentic_sandbox.Api.Base64.RoundTrip.{IsByte, decode_string-encode_to_string}
use microvm_agentic_sandbox.Api.Http.{Texts, go}
use microvm_agentic_sandbox.Api.Execs.{Server, Faults, own_exec}
use microvm_agentic_sandbox.Api.Stream.{
  Payload, bytes_payload, done_payload, Event, event_name, event_payload, sse_event,
}
use microvm_agentic_sandbox.Api.Stream.Chunks.{through_done}
use microvm_agentic_sandbox.Api.Stream.Rejoin.{follow, rejoining_delivers}

abbrev or_nothing : Option Bytes → Bytes
or_nothing none = []
or_nothing (some bytes) = bytes

abbrev pub decoded : Payload → Bytes
decoded (bytes_payload text) = or_nothing (decode_string text)
decoded (done_payload code) = []

-- What the events with a name carry.
abbrev pub told : String → List Event → Bytes
told name [] = []
told name (e ∷ es) = if str_eq e.name name then decoded e.payload ++ told name es else told name es

-- Each element of the payload is a byte.
abbrev pub IsPlain : Chunk → Type 0
IsPlain c = All IsByte c.payload

told-event :
    (k j : ChunkKind) (c : Chunk) (es : List Event)
    → is_done k ≡ false
    → c.kind ≡ j
    → IsPlain c
    → told (event_name k) (sse_event c ∷ es)
      ≡ (if same_kind k j then c.payload else []) ++ told (event_name k) es
unfolding sse_event event_name event_payload
told-event stdout stdout c es h e p = rw (e, decode_string-encode_to_string c.payload p) refl
told-event stdout stderr c es h e p = rw e refl
told-event stdout done c es h e p = rw e refl
told-event stderr stdout c es h e p = rw e refl
told-event stderr stderr c es h e p = rw (e, decode_string-encode_to_string c.payload p) refl
told-event stderr done c es h e p = rw e refl
told-event done j c es h e p = cc

told-events :
    (k : ChunkKind) (cs : List Chunk)
    → is_done k ≡ false
    → All IsPlain cs
    → told (event_name k) (map sse_event cs) ≡ select k (tagged cs)
told-events k [] h p = refl
told-events k (c ∷ cs) h (p, ps) =
    told-event k c.kind c (map sse_event cs) h refl p
    ∙ ap (λ t. (if same_kind k c.kind then c.payload else []) ++ t) (told-events k cs h ps)
    ∙ ap (λ t. t ++ select k (tagged cs)) (sym (select-tag k c.kind c.payload))
    ∙ sym (select-append k (tag c.kind c.payload) (tagged cs))

module _ (codec : EnvCodec) (texts : Texts) (faults : Faults) (sandbox_id exec_id : String)
    (s : Server) (ticks : ℕ → List Bool) where
  -- For a valid record of an ended exec that the registry finds for the sandbox, with at most 64 n chunks
  -- and fewer than 2^64, all of bytes and none after the done chunk: the stdout events and the stderr
  -- events, decoded, that a client gets which joins the stream up to n times as long as it has not seen
  -- the done event, each time with the last id, carry exactly what Output gives; heartbeats may come
  -- anywhere, every write must succeed.
  pub rejoining_output :
      (m : ℕ) (r : ExecRecord) (n : ℕ)
      → IsValid m r
      → own_exec codec texts faults.registry_query sandbox_id exec_id s.registry ≡ go r
      → length r.chunks < u64_mod
      → is_running r.status ≡ false
      → length r.chunks ≤ channel_capacity * n
      → through_done r.chunks ≡ r.chunks
      → All IsPlain r.chunks
      → output r ≡ (
        told "stdout" (follow codec texts faults sandbox_id exec_id s ticks n []),
        told "stderr" (follow codec texts faults sandbox_id exec_id s ticks n []),
      )
  unfolding event_name
  rejoining_output m r n v found few over fits closed plain =
      let all =
        (rejoining_delivers codec texts faults sandbox_id exec_id s ticks m r v found few n over
          fits).0
        ∙ ap (map sse_event) closed in
      output-select r
      ∙ rw all (
          ap (λ out. (out, select stderr (tagged r.chunks)))
            (sym (told-events stdout r.chunks refl plain))
          ∙ ap (λ err. (told "stdout" (map sse_event r.chunks), err))
              (sym (told-events stderr r.chunks refl plain)))
