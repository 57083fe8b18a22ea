-- ===== src/Exec/Record/Replay.antt =====
-- What `Subscribe` puts into the new channel.
use microvm_agentic_sandbox.Prelude.{
  ℕ, ◌≤◌, ◌≡◌, refl, sym, ap, ◌∙◌, true, false, not, List, [], ◌∷◌, ◌++◌, append-nil, append_assoc,
  arith, ltb, leb, length, length-append, take, take_all, take-append_left, take-take_append,
  length-take, keep, Bool-cases, inl, inr,
}
use microvm_agentic_sandbox.Exec.Chunk.{Chunk, is_running}
use microvm_agentic_sandbox.Exec.Channel.{
  Channel, channel_capacity, push, replay_one, replay, fresh_channel,
}
use microvm_agentic_sandbox.Exec.Record.{ExecRecord, open_channel, subscribe}

-- The chunks from a sequence number on.
abbrev pub since : ℕ → List Chunk → List Chunk
since from_seq cs = keep (λ c. leb from_seq c.seq) cs

push-take :
    (c : Chunk) (ch : Channel)
    → length ch.buffer ≤ channel_capacity
    → (push c ch).buffer ≡ take channel_capacity (ch.buffer ++ c ∷ [])
push-take c ch fits = elim (Bool-cases (ltb (length ch.buffer) channel_capacity)) [
  | inl room ↦ rw room (
      sym (
        take_all channel_capacity (ch.buffer ++ c ∷ [])
          (ground (arith, room, length-append ch.buffer (c ∷ [])))))
  | inr full ↦ rw full (
      sym (
        take-append_left channel_capacity ch.buffer (c ∷ []) (ground (arith, full))
        ∙ take_all channel_capacity ch.buffer fits))
]

replay_one-take :
    (from_seq : ℕ) (ch : Channel) (c : Chunk)
    → length ch.buffer ≤ channel_capacity
    → (replay_one from_seq ch c).buffer
      ≡ take channel_capacity (ch.buffer ++ since from_seq (c ∷ []))
replay_one-take from_seq ch c fits = elim (Bool-cases (ltb c.seq from_seq)) [
  | inl old ↦
      rw (old, not_since from_seq c old, append-nil)
        (sym (take_all channel_capacity ch.buffer fits))
  | inr new ↦ rw (new, is_since from_seq c new) (push-take c ch fits)
]
  where
    not_since : (n : ℕ) (d : Chunk) → ltb d.seq n ≡ true → leb n d.seq ≡ false
    not_since n d h = ground arith

    is_since : (n : ℕ) (d : Chunk) → ltb d.seq n ≡ false → leb n d.seq ≡ true
    is_since n d h = ground arith

replay_one-fits :
    (from_seq : ℕ) (ch : Channel) (c : Chunk)
    → length ch.buffer ≤ channel_capacity
    → length (replay_one from_seq ch c).buffer ≤ channel_capacity
replay_one-fits from_seq ch c fits =
    rw (replay_one-take from_seq ch c fits)
      (omega (arith, length-take channel_capacity (ch.buffer ++ since from_seq (c ∷ []))))

since-cons :
    (from_seq : ℕ) (c : Chunk) (cs : List Chunk)
    → since from_seq (c ∷ []) ++ since from_seq cs ≡ since from_seq (c ∷ cs)
since-cons from_seq c cs = ground arith

replay-take :
    (from_seq : ℕ) (cs : List Chunk) (ch : Channel)
    → length ch.buffer ≤ channel_capacity
    → (replay from_seq cs ch).buffer ≡ take channel_capacity (ch.buffer ++ since from_seq cs)
unfolding replay
replay-take from_seq [] ch fits = rw append-nil (sym (take_all channel_capacity ch.buffer fits))
replay-take from_seq (c ∷ cs) ch fits =
    replay-take from_seq cs (replay_one from_seq ch c) (replay_one-fits from_seq ch c fits)
    ∙ ap (λ b. take channel_capacity (b ++ since from_seq cs)) (replay_one-take from_seq ch c fits)
    ∙ take-take_append channel_capacity (ch.buffer ++ since from_seq (c ∷ [])) (since from_seq cs)
    ∙ ap (take channel_capacity)
        (append_assoc ch.buffer (since from_seq (c ∷ [])) (since from_seq cs))
    ∙ ap (λ b. take channel_capacity (ch.buffer ++ b)) (since-cons from_seq c cs)

-- For every record: `Subscribe` returns a channel that holds the first 64 of the chunks from the
-- asked sequence number on, in order; it is closed, and not held by the record, exactly when the exec
-- has ended; and the other subscribers and the chunks stay as they were.
pub subscribe-replay :
    (from_seq : ℕ) (r : ExecRecord)
    → ((subscribe from_seq r).0.subscribers ≡ r.subscribers ++ open_channel from_seq r ∷ [])
      × ((open_channel from_seq r).buffer ≡ take channel_capacity (since from_seq r.chunks))
      × ((open_channel from_seq r).closed ≡ not (is_running r.status))
      × ((open_channel from_seq r).registered ≡ is_running r.status)
      × ((subscribe from_seq r).0.chunks ≡ r.chunks)
unfolding subscribe open_channel
subscribe-replay from_seq r =
    (refl, replay-take from_seq r.chunks fresh_channel (omega arith), refl, refl, refl)
