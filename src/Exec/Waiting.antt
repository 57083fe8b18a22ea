-- ===== src/Exec/Waiting.antt =====
-- adapter/internal/exec/record.go: `Wait`. What each round of its `select` meets is an argument, with the
-- record as it then is.
use microvm_agentic_sandbox.Prelude.{
  suc, ◌≤◌, ◌≡◌, refl, ap, ◌∙◌, true, false, not, List, [], ◌∷◌, arith, if◌then◌else◌, ℤ, length,
  length-take, Bool-cases, inl, inr,
}
use microvm_agentic_sandbox.Exec.Chunk.{Chunk, Status, is_done, is_running}
use microvm_agentic_sandbox.Exec.Channel.{Channel, channel_capacity}
use microvm_agentic_sandbox.Exec.Record.{ExecRecord, open_channel}
use microvm_agentic_sandbox.Exec.Record.Replay.{since, subscribe-replay}
use microvm_agentic_sandbox.Exec.Load.{Snapshot, snapshot}

-- A chunk, the closed channel, or the end of the context.
pub data Hearing : Type 0 where
  hears : Chunk → Hearing
  hears_close : Hearing
  context_ends : Hearing

pub data Waited : Type 0 where
  returns : Status → ℤ → Waited
  interrupted : Waited
  waits_on : Waited

-- `return snap.Status, snap.ExitCode, nil`
abbrev pub returned : Snapshot → Waited
returned snap = returns snap.status snap.exit_code

unfoldable pub wait_rounds : List (Hearing × ExecRecord) → Waited
wait_rounds [] = waits_on
wait_rounds ((hears c, r) ∷ rounds) =
    let later = wait_rounds rounds in if is_done c.kind then returned (snapshot r) else later
wait_rounds ((hears_close, r) ∷ rounds) = returned (snapshot r)
wait_rounds ((context_ends, r) ∷ rounds) = interrupted

-- `Wait`; `rounds` is what its rounds meet on the channel.
unfoldable pub wait : (Channel → List (Hearing × ExecRecord)) → ExecRecord → Waited
wait rounds r = wait_rounds (rounds (open_channel 0 r))

-- What the rounds meet on the closed channel of a record that does not change.
abbrev pub closed_rounds : ExecRecord → List Chunk → List (Hearing × ExecRecord)
closed_rounds r [] = (hears_close, r) ∷ []
closed_rounds r (c ∷ cs) = (hears c, r) ∷ closed_rounds r cs

wait_rounds-closed :
    (r : ExecRecord) (cs : List Chunk)
    → wait_rounds (closed_rounds r cs) ≡ returns r.status r.exit_code
unfolding wait_rounds snapshot
wait_rounds-closed r [] = refl
wait_rounds-closed r (c ∷ cs) = elim (Bool-cases (is_done c.kind)) [
  | inl e ↦ rw e refl
  | inr e ↦ rw e (wait_rounds-closed r cs)
]

length-closed_rounds :
    (r : ExecRecord) (cs : List Chunk) → length (closed_rounds r cs) ≡ suc (length cs)
length-closed_rounds r [] = refl
length-closed_rounds r (c ∷ cs) = ap suc (length-closed_rounds r cs)

-- For every record of an exec that has ended: the channel that Wait opens is closed, there are at most 65
-- rounds until its end, and where the context does not end before, Wait returns the status and the exit
-- code of the record, whatever chunks the channel holds.
pub wait-ended :
    (r : ExecRecord)
    → is_running r.status ≡ false
    → (wait (λ ch. closed_rounds r ch.buffer) r ≡ returns r.status r.exit_code)
      × ((open_channel 0 r).closed ≡ true)
      × (length (closed_rounds r (open_channel 0 r).buffer) ≤ 65)
unfolding wait
wait-ended r over =
    let replayed = subscribe-replay 0 r in
    (
      wait_rounds-closed r (open_channel 0 r).buffer,
      replayed.2 ∙ ap not over,
      omega (
        arith,
        length-closed_rounds r (open_channel 0 r).buffer,
        ap length replayed.1,
        length-take channel_capacity (since 0 r.chunks),
      ),
    )
