-- ===== src/Exec/Record/Sends.antt =====
-- adapter/internal/exec/record.go: the sends of `Append` and `finish`, which come after the lock is
-- released, against the closing of channels by `cancel`.
use microvm_agentic_sandbox.Prelude.{
  ℕ, zero, suc, ◌-◌, ◌<◌, ◌≡◌, refl, ap, true, false, ◌&&◌, none, some, List, [], ◌∷◌, map, Bytes,
  ℤ, pos, negsuc, Time, String, arith, modify, get_elem?, All, All-append, All-map, All-modify,
  Bool-cases, inl, inr,
}
use mathlib.Core.Option
use microvm_agentic_sandbox.Exec.Chunk.{ChunkKind, Status, Chunk, is_running}
use microvm_agentic_sandbox.Exec.Channel.{
  Channel, owe, publish, settle, deliver, replay_one, replay, fresh_channel, unsubscribe, take_next,
  receive,
}
use microvm_agentic_sandbox.Exec.Record.{
  ExecRecord, capture, append_within, append_locked, close_out, finish_locked, fan_out, append,
  finish, open_channel, subscribe, cancel,
}
use microvm_agentic_sandbox.Exec.Record.Invariant.{append_locked_cases}
use microvm_agentic_sandbox.Exec.Record.Steps.{deliver_at, receive_at}

get_elem?-modify {ℓ} :
    {A : Type ℓ} (i : ℕ) (f : A → A) (xs : List A)
    → get_elem? (modify i f xs) i ≡ Option.map f (get_elem? xs i)
get_elem?-modify i f [] = refl
get_elem?-modify zero f (x ∷ xs) = refl
get_elem?-modify (suc i) f (x ∷ xs) = get_elem?-modify i f xs

get_elem?-map {ℓ κ} :
    {A : Type ℓ} {B : Type κ} (i : ℕ) (f : A → B) (xs : List A)
    → get_elem? (map f xs) i ≡ Option.map f (get_elem? xs i)
get_elem?-map i f [] = refl
get_elem?-map zero f (x ∷ xs) = refl
get_elem?-map (suc i) f (x ∷ xs) = get_elem?-map i f xs

-- One channel, from the recording of a chunk over the cancellation to the send.
abbrev raced : Chunk → Channel → Channel
raced c ch = deliver (unsubscribe (owe c ch))

raced-at :
    (c : Chunk) (i : ℕ) (chs : List Channel)
    → get_elem? (modify i deliver (modify i unsubscribe (publish c chs))) i
      ≡ Option.map (raced c) (get_elem? chs i)
raced-at c i [] = refl
raced-at c zero (ch ∷ chs) = refl
raced-at c (suc i) (ch ∷ chs) = raced-at c i chs

raced-panics : (c : Chunk) (ch : Channel) → ch.registered ≡ true → (raced c ch).panicked ≡ true
unfolding deliver settle unsubscribe
raced-panics c ch on = ground arith

-- The same for the record: the chunk is captured, the place cancelled, the send made.
capture-raced :
    (r : ExecRecord) (kind : ChunkKind) (bytes : Bytes) (left i : ℕ) (ch : Channel)
    → get_elem? r.subscribers i ≡ some ch
    → ch.registered ≡ true
    → Option.map
        (λ c. c.panicked)
        (get_elem? (deliver_at i (cancel i (capture kind bytes r left))).subscribers i)
      ≡ some true
unfolding deliver_at cancel capture
capture-raced r kind bytes left i ch at on =
    rw (raced-at _ i r.subscribers, at) (ap some (raced-panics _ ch on))

-- In every record with room for output, for every registered subscriber: if its `cancel` runs after
-- `Append` has released the lock and before the loop sends to it, the send panics, for it is made on
-- a closed channel.
pub cancel_in_between_panics :
    (m : ℕ) (r : ExecRecord) (kind : ChunkKind) (bytes : Bytes) (i : ℕ) (ch : Channel)
    → r.max_output_bytes ≡ pos m
    → r.output_bytes < m
    → get_elem? r.subscribers i ≡ some ch
    → ch.registered ≡ true
    → Option.map
        (λ c. c.panicked)
        (get_elem? (deliver_at i (cancel i (append_locked kind bytes r))).subscribers i)
      ≡ some true
cancel_in_between_panics m r kind bytes i ch limit room at on =
    elim (append_locked_cases m r kind bytes limit) [
      | inl (full, _) ↦ absurd (omega arith)
      | inr (_, e) ↦ rw e (capture-raced r kind bytes (m - r.output_bytes) i ch at on)
    ]

-- A call of a whole method, with nothing in between.
pub data Call : Type 0 where
  appends : ChunkKind → Bytes → Call
  finishes : Status → ℤ → String → Time → Call
  subscribes : ℕ → Call
  cancels : ℕ → Call
  receives : ℕ → Call

unfoldable pub perform : Call → ExecRecord → ExecRecord
perform (appends kind bytes) r = append kind bytes r
perform (finishes status code reason now) r = finish status code reason now r
perform (subscribes from_seq) r = (subscribe from_seq r).0
perform (cancels i) r = cancel i r
perform (receives i) r = receive_at i r

unfoldable pub perform_all : List Call → ExecRecord → ExecRecord
perform_all [] r = r
perform_all (c ∷ cs) r = perform_all cs (perform c r)

-- No send has met a closed channel, none is owed, and the map holds no closed channel.
pub record IsSound (ch : Channel) : Type 0 where
  pub calm : ch.panicked ≡ false
  pub settled : ch.owed ≡ none
  pub live : (ch.registered && ch.closed) ≡ false

sent-IsSound : (c : Chunk) (ch : Channel) → IsSound ch → IsSound (deliver (owe c ch))
unfolding deliver settle
sent-IsSound c ch s = ground arith

unsubscribe-IsSound : (ch : Channel) → IsSound ch → IsSound (unsubscribe ch)
unfolding unsubscribe
unsubscribe-IsSound ch s = ground arith

deliver-IsSound : (ch : Channel) → IsSound ch → IsSound (deliver ch)
unfolding deliver settle
deliver-IsSound ch s = ground arith

abbrev pub AllSound : ExecRecord → Type 0
AllSound r = All IsSound r.subscribers

publish-IsSound :
    (c : Chunk) (chs : List Channel) → All IsSound chs → All IsSound (map deliver (publish c chs))
publish-IsSound c [] h = tt
publish-IsSound c (ch ∷ chs) (p, h) = (sent-IsSound c ch p, publish-IsSound c chs h)

append_within-AllSound :
    (kind : ChunkKind) (bytes : Bytes) (r : ExecRecord) (left : ℤ)
    → AllSound r
    → AllSound (fan_out (append_within kind bytes r left))
unfolding append_within capture fan_out
append_within-AllSound kind bytes r (pos (suc n)) h = publish-IsSound _ r.subscribers h
append_within-AllSound kind bytes r (pos zero) h =
    All-map IsSound IsSound deliver deliver-IsSound r.subscribers h
append_within-AllSound kind bytes r (negsuc n) h =
    All-map IsSound IsSound deliver deliver-IsSound r.subscribers h

finish-AllSound :
    (status : Status) (code : ℤ) (reason : String) (now : Time) (r : ExecRecord)
    → AllSound r
    → AllSound (finish status code reason now r)
unfolding finish finish_locked close_out fan_out
finish-AllSound status code reason now r h = elim (Bool-cases (is_running r.status)) [
  | inl e ↦ rw e (publish-IsSound _ r.subscribers h)
  | inr e ↦ rw e (All-map IsSound IsSound deliver deliver-IsSound r.subscribers h)
]

replay-keeps :
    (from_seq : ℕ) (cs : List Chunk) (ch : Channel)
    → ((replay from_seq cs ch).owed ≡ ch.owed) × ((replay from_seq cs ch).panicked ≡ ch.panicked)
unfolding replay
replay-keeps from_seq [] ch = (refl, refl)
replay-keeps from_seq (c ∷ cs) ch =
    ground (arith, replay-keeps from_seq cs (replay_one from_seq ch c))

open_channel-IsSound : (from_seq : ℕ) (r : ExecRecord) → IsSound (open_channel from_seq r)
unfolding open_channel
open_channel-IsSound from_seq r =
    let (owed, panicked) = replay-keeps from_seq r.chunks fresh_channel in
    record { calm = panicked; settled = owed; live = ground arith }

receive-IsSound : (ch : Channel) → IsSound ch → IsSound (receive ch)
unfolding receive take_next
receive-IsSound ch s = ground arith

perform-AllSound : (c : Call) (r : ExecRecord) → AllSound r → AllSound (perform c r)
unfolding perform append append_locked subscribe cancel receive_at
perform-AllSound (appends kind bytes) r h = append_within-AllSound kind bytes r _ h
perform-AllSound (finishes status code reason now) r h = finish-AllSound status code reason now r h
perform-AllSound (subscribes from_seq) r h =
    All-append IsSound r.subscribers _ h (open_channel-IsSound from_seq r, tt)
perform-AllSound (cancels i) r h =
    All-modify IsSound unsubscribe unsubscribe-IsSound i r.subscribers h
perform-AllSound (receives i) r h = All-modify IsSound receive receive-IsSound i r.subscribers h

-- Where whole methods run one after another, from a record whose channels are sound: then all its
-- channels are sound, which is that no send has met a closed channel, none is still owed, and no
-- channel that is closed is held for more sends.
pub perform_all-AllSound :
    (cs : List Call) (r : ExecRecord) → AllSound r → AllSound (perform_all cs r)
unfolding perform_all
perform_all-AllSound [] r h = h
perform_all-AllSound (c ∷ cs) r h = perform_all-AllSound cs (perform c r) (perform-AllSound c r h)
