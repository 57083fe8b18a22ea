-- ===== src/Api/Stream/Rejoin.antt =====
-- A client that joins the stream of an ended exec again until it has seen the last event.
use microvm_agentic_sandbox.Prelude.{
  ℕ, zero, suc, ◌+◌, ◌*◌, ◌≤◌, ◌<◌, ◌≡◌, refl, sym, subst, ap, ◌∙◌, String, Bool, true, false, ◌||◌,
  List, [], ◌∷◌, ◌++◌, map, append_assoc, arith, ltb, if◌then◌else◌, str_eq, Bytes, u64_mod, length,
  length-append, length-take, take, map-append, lt→ltb, ltb→lt, Bool-cases, inl, inr,
}
use microvm_agentic_sandbox.Exec.Chunk.{is_running, ChunkKind, stdout, stderr, done, Chunk, is_done}
use microvm_agentic_sandbox.Exec.Channel.{channel_capacity}
use microvm_agentic_sandbox.Exec.Record.{ExecRecord, open_channel}
use microvm_agentic_sandbox.Exec.Record.Stream.{Numbered, dones, dones-append}
use microvm_agentic_sandbox.Exec.Record.Invariant.{IsValid}
use microvm_agentic_sandbox.Exec.Record.Replay.{since, subscribe-replay}
use microvm_agentic_sandbox.Exec.Table.{EnvCodec}
use microvm_agentic_sandbox.Api.Http.{Texts, Handled, go, stop, panics}
use microvm_agentic_sandbox.Api.Execs.{Server, Faults, own_exec}
use microvm_agentic_sandbox.Api.Stream.{
  Event, event_name, sse_event, decimal, parse_uint, after_last, resume_from, Wake, arrives, ends,
  beats, Piece, event, heartbeat, serve, with_flusher, stream_handler,
}
use microvm_agentic_sandbox.Api.Stream.Chunks.{
  through_done, through_done-none, through_done-some, through_done-append, dones-through,
  Numbered-left, Numbered-right, since-append, take-rest,
}
use microvm_agentic_sandbox.Api.Stream.Decimal.{resume_from-decimal}

-- What the rounds meet on a closed channel that holds the chunks, every write succeeding: where the
-- list says true, the heartbeat comes first.
abbrev pub rounds : List Bool → List Chunk → List Wake
rounds [] [] = ends ∷ []
rounds [] (c ∷ cs) = arrives c true ∷ rounds [] cs
rounds (true ∷ ticks) cs = beats true ∷ rounds ticks cs
rounds (false ∷ ticks) [] = ends ∷ []
rounds (false ∷ ticks) (c ∷ cs) = arrives c true ∷ rounds ticks cs

-- A client skips comments.
abbrev pub events : List Piece → List Event
events [] = []
events (event e ∷ ps) = e ∷ events ps
events (heartbeat ∷ ps) = events ps

abbrev pub events_of : Handled (List Piece) → List Event
events_of (go ps) = events ps
events_of (stop r) = []
events_of panics = []

served :
    (ticks : List Bool) (cs : List Chunk)
    → events (serve (rounds ticks cs)) ≡ map sse_event (through_done cs)
unfolding serve
served [] [] = refl
served [] (c ∷ cs) = elim (Bool-cases (is_done c.kind)) [
  | inl e ↦ rw e refl
  | inr e ↦ rw e (ap (λ es. sse_event c ∷ es) (served [] cs))
]
served (true ∷ ticks) cs = served ticks cs
served (false ∷ ticks) [] = refl
served (false ∷ ticks) (c ∷ cs) = elim (Bool-cases (is_done c.kind)) [
  | inl e ↦ rw e refl
  | inr e ↦ rw e (ap (λ es. sse_event c ∷ es) (served ticks cs))
]

-- The Last-Event-ID that a client has after some events.
abbrev pub last_id : Bytes → List Event → Bytes
last_id id [] = id
last_id id (e ∷ es) = last_id e.id es

-- The last event was seen.
abbrev pub has_ended : List Event → Bool
has_ended [] = false
has_ended (e ∷ es) = str_eq e.name "done" || has_ended es

resume_from-last_id :
    (id : Bytes) (n : ℕ) (cs : List Chunk)
    → Numbered n cs
    → n + length cs < u64_mod
    → resume_from id ≡ n
    → resume_from (last_id id (map sse_event cs)) ≡ n + length cs
unfolding sse_event
resume_from-last_id id n [] h fits at = at ∙ omega arith
resume_from-last_id id n (c ∷ cs) (p, h) fits at =
    let small : suc n < u64_mod = omega (arith, fits) in
    let same : c.seq ≡ n = omega (arith, p, fits) in
    resume_from-last_id (decimal c.seq) (suc n) cs h (omega (arith, fits))
      (ap (λ k. resume_from (decimal k)) same ∙ resume_from-decimal n small)
    ∙ omega arith

name-is_done : (k : ChunkKind) → str_eq (event_name k) "done" ≡ is_done k
unfolding event_name
name-is_done stdout = refl
name-is_done stderr = refl
name-is_done done = refl

has_ended-dones : (cs : List Chunk) → has_ended (map sse_event cs) ≡ ltb 0 (dones cs)
unfolding sse_event
has_ended-dones [] = refl
has_ended-dones (c ∷ cs) = rw (name-is_done c.kind, has_ended-dones cs) (ground arith)

not_positive : (n : ℕ) → ltb 0 n ≡ false → n ≡ 0
not_positive n h = ground arith

start : resume_from [] ≡ 0
unfolding resume_from after_last parse_uint
start = refl

module _ (codec : EnvCodec) (texts : Texts) (faults : Faults) (sandbox_id exec_id : String)
    (s : Server) (ticks : ℕ → List Bool) where
  -- One connection to the stream of an ended exec; `n` tells the connections apart.
  abbrev pub connection : ℕ → Bytes → List Event
  connection n id = events_of (
      stream_handler codec texts faults sandbox_id exec_id s true (λ ch. rounds (ticks n) ch.buffer)
        id)

  -- What a client gets that joins up to `n` times, each time with the last id that it has seen.
  abbrev pub follow : ℕ → Bytes → List Event
  follow zero id = []
  follow (suc n) id =
      let seen = connection n id in
      let rest = follow n (last_id id seen) in if has_ended seen then seen else seen ++ rest

  module _ (m : ℕ) (r : ExecRecord) (v : IsValid m r)
      (found : own_exec codec texts faults.registry_query sandbox_id exec_id s.registry ≡ go r)
      (few : length r.chunks < u64_mod) where
    connection-replay :
        (n : ℕ) (id : Bytes) (pre post : List Chunk)
        → r.chunks ≡ pre ++ post
        → resume_from id ≡ length pre
        → connection n id ≡ map sse_event (through_done (take channel_capacity post))
    unfolding stream_handler with_flusher
    connection-replay n id pre post parts at =
        let from_pre : since (length pre) (pre ++ post) ≡ post =
          subst (λ k. since k (pre ++ post) ≡ post) (omega arith)
            (since-append 0 pre post (subst (Numbered 0) parts v.numbered)
              (omega (arith, few, ap length parts))) in
        let shown : (open_channel (resume_from id) r).buffer ≡ take channel_capacity post =
          (subscribe-replay (resume_from id) r).1
          ∙ ap (take channel_capacity)
              (ap (λ k. since k r.chunks) at ∙ ap (since (length pre)) parts ∙ from_pre) in
        rw (found, shown) (served (ticks n) (take channel_capacity post))

    follow-seen :
        (n : ℕ) (id : Bytes) (seen : List Event)
        → connection n id ≡ seen
        → follow (suc n) id ≡ (if has_ended seen then seen else seen ++ follow n (last_id id seen))
    follow-seen n id seen e =
        ap (λ es. if has_ended es then es else es ++ follow n (last_id id es)) e

    follow-last :
        (n : ℕ) (id : Bytes) (pre head rest : List Chunk)
        → connection n id ≡ map sse_event (through_done head)
        → 0 < dones head
        → follow (suc n) id ≡ map sse_event (through_done (head ++ rest))
    follow-last n id pre head rest seen some_done =
        let over : has_ended (map sse_event (through_done head)) ≡ true =
          has_ended-dones (through_done head) ∙ lt→ltb 0 _ (dones-through head some_done) in
        follow-seen n id _ seen
        ∙ rw over (ap (map sse_event) (sym (through_done-some head rest some_done)))

    follow-more :
        (n : ℕ) (id : Bytes) (head rest : List Chunk)
        → connection n id ≡ map sse_event (through_done head)
        → dones head ≡ 0
        → follow n (last_id id (map sse_event head)) ≡ map sse_event (through_done rest)
        → follow (suc n) id ≡ map sse_event (through_done (head ++ rest))
    follow-more n id head rest seen no_done later =
        let whole = through_done-none head no_done in
        let unfinished : has_ended (map sse_event head) ≡ false =
          has_ended-dones head ∙ rw no_done refl in
        follow-seen n id (map sse_event head) (seen ∙ ap (map sse_event) whole)
        ∙ rw unfinished (
            ap (λ es. map sse_event head ++ es) later
            ∙ sym (map-append sse_event head (through_done rest))
            ∙ ap (map sse_event) (sym (through_done-append head rest no_done)))

    follow-rest :
        (n : ℕ) (id : Bytes) (pre post : List Chunk)
        → r.chunks ≡ pre ++ post
        → resume_from id ≡ length pre
        → 0 < dones post
        → length post ≤ channel_capacity * n
        → follow n id ≡ map sse_event (through_done post)
    follow-rest zero id pre [] parts at some_done fits = absurd (omega (arith, some_done))
    follow-rest zero id pre (c ∷ post) parts at some_done fits = absurd (omega (arith, fits))
    follow-rest (suc n) id pre post parts at some_done fits =
        let (rest, split) = take-rest channel_capacity post in
        let head = take channel_capacity post in
        let seen = connection-replay n id pre post parts at in
        let counted = ap dones split ∙ dones-append head rest in
        let sized = ap length split ∙ length-append head rest in
        let cut = length-take channel_capacity post in
        let deeper : r.chunks ≡ (pre ++ head) ++ rest =
          parts ∙ ap (λ t. pre ++ t) split ∙ sym (append_assoc pre head rest) in
        let numbers : Numbered 0 ((pre ++ head) ++ rest) = subst (Numbered 0) deeper v.numbered in
        let bound : length r.chunks ≡ length (pre ++ head) + length rest =
          ap length deeper ∙ length-append (pre ++ head) rest in
        let longer : length (pre ++ head) ≡ length pre + length head = length-append pre head in
        elim (Bool-cases (ltb 0 (dones head))) [
          | inl e ↦
              follow-last n id pre head rest seen (ltb→lt 0 _ e)
              ∙ ap (λ t. map sse_event (through_done t)) (sym split)
          | inr e ↦
              let none_yet : dones head ≡ 0 = not_positive _ e in
              let next : resume_from (last_id id (map sse_event head)) ≡ length pre + length head =
                resume_from-last_id id (length pre) head
                  (subst (λ k. Numbered k head) (omega arith)
                    (Numbered-right 0 pre head (Numbered-left 0 (pre ++ head) rest numbers)))
                  (omega (arith, few, bound, longer)) at in
              follow-more n id head rest seen none_yet (
                follow-rest n (last_id id (map sse_event head)) (pre ++ head) rest deeper
                  (next ∙ sym longer) (omega (arith, some_done, counted, none_yet))
                  (omega (arith, fits, sized, cut)))
              ∙ ap (λ t. map sse_event (through_done t)) (sym split)
        ]

    -- For a valid record of an ended exec with at most 64 n chunks and fewer than 2^64, which the registry
    -- finds for the sandbox: a client that joins its stream, and while it has not seen the done event
    -- joins again with the last id that it has seen, up to n times, gets each chunk up to the first done
    -- chunk as one event, in order, none twice and none left out, and sees the done event. Heartbeats
    -- may come anywhere; every write must succeed.
    pub rejoining_delivers :
        (n : ℕ)
        → is_running r.status ≡ false
        → length r.chunks ≤ channel_capacity * n
        → (follow n [] ≡ map sse_event (through_done r.chunks)) × (has_ended (follow n []) ≡ true)
    rejoining_delivers n over fits =
        let one : dones r.chunks ≡ 1 = v.terminal ∙ rw over refl in
        let all = follow-rest n [] [] r.chunks refl start (omega (arith, one)) fits in
        (
          all,
          ap has_ended all
              ∙ has_ended-dones (through_done r.chunks)
              ∙ lt→ltb 0 _ (dones-through r.chunks (omega (arith, one))),
        )
