-- ===== src/Exec/Record/Heard.antt =====
-- What the reader of one channel gets: a part of the record's chunks, in their order.
use microvm_agentic_sandbox.Prelude.{
  ℕ, ◌≡◌, refl, subst, ◌∙◌, Bool, true, false, Option, none, some, List, [], ◌∷◌, ◌++◌, append-nil,
  append_assoc, arith, if◌then◌else◌, ltb, length, Subseq, Subseq-nil, Subseq-append, Subseq-concat,
  Subseq-trans, Subseq-append_left, Bool-cases, inl, inr,
}
use microvm_agentic_sandbox.Exec.Chunk.{Chunk}
use microvm_agentic_sandbox.Exec.Channel.{
  Channel, channel_capacity, owe, push, settle, deliver, replay_one, replay, fresh_channel,
  unsubscribe, take_next, receive,
}
use microvm_agentic_sandbox.Exec.Record.{ExecRecord, open_channel}

-- What was taken out of the channel or waits in it.
abbrev pub got : Channel → List Chunk
got ch = ch.taken ++ ch.buffer

abbrev pub to_send : Option Chunk → List Chunk
to_send none = []
to_send (some c) = c ∷ []

-- With the send that is still owed, these are chunks of the history, in order, none twice.
abbrev pub Heard : List Chunk → Channel → Type 0
Heard cs ch = Subseq (got ch ++ to_send ch.owed) cs

module _ (cs : List Chunk) where
  pub got-Subseq : (ch : Channel) → Heard cs ch → Subseq (got ch) cs
  got-Subseq ch h = Subseq-trans h (Subseq-append_left (got ch) (to_send ch.owed))

  -- A chunk that is recorded is owed to the channels of the map.
  pub owe-Heard :
      (c : Chunk) (ch : Channel) → ch.owed ≡ none → Heard cs ch → Heard (cs ++ c ∷ []) (owe c ch)
  owe-Heard c ch e h = elim (Bool-cases ch.registered) [
    | inl on ↦ rw on (Subseq-concat (got-Subseq ch h) c)
    | inr off ↦ rw off (Subseq-append h (c ∷ []))
  ]

  push-Heard :
      (c : Chunk) (ch : Channel) → Subseq (got ch ++ c ∷ []) cs → Subseq (got (push c ch)) cs
  push-Heard c ch h = elim (Bool-cases (ltb (length ch.buffer) channel_capacity)) [
    | inl room ↦ rw room (rw (← append_assoc ch.taken ch.buffer (c ∷ [])) h)
    | inr full ↦ rw full (Subseq-trans h (Subseq-append_left (got ch) (c ∷ [])))
  ]

  -- The send, whether the channel is closed or not.
  send-Subseq :
      (closed : Bool) (c : Chunk) (ch : Channel)
      → Subseq (got ch ++ c ∷ []) cs
      → Subseq (got (if closed then record ch { panicked = true } else push c ch)) cs
  send-Subseq true c ch h = Subseq-trans h (Subseq-append_left (got ch) (c ∷ []))
  send-Subseq false c ch h = push-Heard c ch h

  settle-Heard :
      (o : Option Chunk) (ch : Channel)
      → ch.owed ≡ o
      → Subseq (got ch ++ to_send o) cs
      → Heard cs (settle o ch)
  unfolding settle
  settle-Heard none ch e h = rw e h
  settle-Heard (some c) ch e h = rw append-nil (send-Subseq ch.closed c ch h)

  pub deliver-Heard : (ch : Channel) → Heard cs ch → Heard cs (deliver ch)
  unfolding deliver
  deliver-Heard ch h = settle-Heard ch.owed ch refl h

  pub unsubscribe-Heard : (ch : Channel) → Heard cs ch → Heard cs (unsubscribe ch)
  unfolding unsubscribe
  unsubscribe-Heard ch h = elim (Bool-cases ch.registered) [ inl e ↦ rw e h | inr e ↦ rw e h ]

  take_next-Heard :
      (buffer : List Chunk) (ch : Channel)
      → ch.buffer ≡ buffer
      → Subseq ((ch.taken ++ buffer) ++ to_send ch.owed) cs
      → Heard cs (take_next buffer ch)
  unfolding take_next
  take_next-Heard [] ch e h = rw e h
  take_next-Heard (c ∷ rest) ch e h = rw (append_assoc ch.taken (c ∷ []) rest) h

  pub receive-Heard : (ch : Channel) → Heard cs ch → Heard cs (receive ch)
  unfolding receive
  receive-Heard ch h = take_next-Heard ch.buffer ch refl h

replay_one-Subseq :
    (from_seq : ℕ) (ds : List Chunk) (ch : Channel) (c : Chunk)
    → Subseq (got ch) ds
    → Subseq (got (replay_one from_seq ch c)) (ds ++ c ∷ [])
replay_one-Subseq from_seq ds ch c h = elim (Bool-cases (ltb c.seq from_seq)) [
  | inl old ↦ rw old (Subseq-append h (c ∷ []))
  | inr new ↦ rw new (push-Heard (ds ++ c ∷ []) c ch (Subseq-concat h c))
]

replay_one-owed :
    (from_seq : ℕ) (ch : Channel) (c : Chunk) → (replay_one from_seq ch c).owed ≡ ch.owed
replay_one-owed from_seq ch c = ground arith

-- The replay puts chunks of the history into the new channel, in order.
replay-Subseq :
    (from_seq : ℕ) (ds cs : List Chunk) (ch : Channel)
    → Subseq (got ch) ds
    → Subseq (got (replay from_seq cs ch)) (ds ++ cs)
unfolding replay
replay-Subseq from_seq ds [] ch h = rw append-nil h
replay-Subseq from_seq ds (c ∷ cs) ch h = subst (Subseq _) (append_assoc ds (c ∷ []) cs) (
    replay-Subseq from_seq (ds ++ c ∷ []) cs (replay_one from_seq ch c)
      (replay_one-Subseq from_seq ds ch c h))

replay-owed :
    (from_seq : ℕ) (cs : List Chunk) (ch : Channel) → (replay from_seq cs ch).owed ≡ ch.owed
unfolding replay
replay-owed from_seq [] ch = refl
replay-owed from_seq (c ∷ cs) ch =
    replay-owed from_seq cs (replay_one from_seq ch c) ∙ replay_one-owed from_seq ch c

pub open_channel-owed : (from_seq : ℕ) (r : ExecRecord) → (open_channel from_seq r).owed ≡ none
unfolding open_channel
open_channel-owed from_seq r = replay-owed from_seq r.chunks fresh_channel

pub open_channel-Heard : (from_seq : ℕ) (r : ExecRecord) → Heard r.chunks (open_channel from_seq r)
unfolding open_channel
open_channel-Heard from_seq r =
    rw (replay-owed from_seq r.chunks fresh_channel, append-nil)
      (replay-Subseq from_seq [] r.chunks fresh_channel (Subseq-nil []))
