-- ===== src/Tests/Records.antt =====
-- Records, their subscribers and their output: adapter/internal/exec/record.go at concrete inputs.
use microvm_agentic_sandbox.Prelude.{
  ◌≡◌, refl, ◌≤◌, ◌<◌, true, false, none, some, List, [], ◌∷◌, ◌++◌, pos, Bytes, u64_mod, length,
  take, ltb, get_elem?, All, Subseq, arith, not,
}
use mathlib.Core.Option
use microvm_agentic_sandbox.Exec.Chunk.{ChunkKind, stdout, stderr, completed, is_running}
use microvm_agentic_sandbox.Exec.Channel.{Channel, channel_capacity}
use microvm_agentic_sandbox.Exec.Record.{
  ExecRecord, clamp_output, new_exec_record, capture, append_within, append_locked, output,
  open_channel, subscribe, cancel,
}
use microvm_agentic_sandbox.Exec.Record.Invariant.{IsValid, new_exec_record-IsValid}
use microvm_agentic_sandbox.Exec.Record.Capture.{append_all, stream, IsOutput}
use microvm_agentic_sandbox.Exec.Record.Output.{select, output-append_all}
use microvm_agentic_sandbox.Exec.Record.Steps.{
  Reach, here, next, emit, join, send, read, deliver_at, receive_at,
}
use microvm_agentic_sandbox.Exec.Record.Heard.{got}
use microvm_agentic_sandbox.Exec.Record.Delivery.{Rising, Reach-IsValid, received_in_order}
use microvm_agentic_sandbox.Exec.Record.Sends.{
  Call, appends, finishes, subscribes, cancels, receives, perform_all, AllSound,
  cancel_in_between_panics, perform_all-AllSound,
}
use microvm_agentic_sandbox.Exec.Record.Refine.{
  Represents, empty_log, log_all, new_exec_record-Represents, perform_all-Represents,
}
use microvm_agentic_sandbox.Exec.Record.Replay.{since, subscribe-replay}
use microvm_agentic_sandbox.Exec.Load.Laws.{rebuilt, loaded-IsValid}

-- a record that keeps 5 bytes
abbrev small : ExecRecord
small = new_exec_record "e1" "s1" ("ls" ∷ []) none "" false (pos 5) 7

clamp_small : clamp_output (pos 5) ≡ pos 5
unfolding clamp_output
clamp_small = refl

small-IsValid : IsValid 5 small
small-IsValid = new_exec_record-IsValid "e1" "s1" ("ls" ∷ []) none "" false (pos 5) 7 5 clamp_small

-- three pieces of output, seven bytes
abbrev pieces : List (ChunkKind × Bytes)
pieces = (stdout, 1 ∷ 2 ∷ []) ∷ (stderr, 3 ∷ []) ∷ (stdout, 4 ∷ 5 ∷ 6 ∷ 7 ∷ []) ∷ []

pieces-IsOutput : All IsOutput pieces
pieces-IsOutput = ((refl, omega arith), ((refl, omega arith), ((refl, omega arith), tt)))

output-append_all_example :
    (output (append_all pieces small)
      ≡ (select stdout (take 5 (stream pieces)), select stderr (take 5 (stream pieces))))
    × ((append_all pieces small).truncated ≡ ltb 5 (length (stream pieces)))
output-append_all_example =
    output-append_all "e1" "s1" ("ls" ∷ []) none "" false (pos 5) 7 5 pieces clamp_small
      pieces-IsOutput

-- A reader joins, a chunk is recorded, sent and read.
abbrev joined : ExecRecord
joined = (subscribe 0 small).0

abbrev written : ExecRecord
written = append_locked stdout (1 ∷ 2 ∷ []) joined

abbrev heard : ExecRecord
heard = receive_at 0 (deliver_at 0 written)

path : Reach small heard
unfolding subscribe open_channel new_exec_record
path =
    next
      (next (next (next here (join small 0)) (emit joined stdout (1 ∷ 2 ∷ []) refl (refl, tt)))
        (send written 0))
      (read (deliver_at 0 written) 0)

Reach-IsValid_example : IsValid 5 heard
Reach-IsValid_example = Reach-IsValid path small-IsValid

no_subscriber : small.subscribers ≡ []
unfolding new_exec_record
no_subscriber = refl

few_chunks : length heard.chunks ≤ u64_mod
unfolding receive_at deliver_at append_locked append_within capture subscribe new_exec_record
    clamp_output
few_chunks = omega arith

received_in_order_example :
    All (λ ch. Subseq (got ch) heard.chunks × Rising 0 (got ch)) heard.subscribers
received_in_order_example = received_in_order path small-IsValid no_subscriber few_chunks

joined_limit : joined.max_output_bytes ≡ pos 5
unfolding subscribe new_exec_record clamp_output
joined_limit = refl

joined_room : joined.output_bytes < 5
unfolding subscribe new_exec_record
joined_room = omega arith

abbrev first_channel : Channel
first_channel = open_channel 0 small

joined_at : get_elem? joined.subscribers 0 ≡ some first_channel
unfolding subscribe new_exec_record
joined_at = refl

joined_on : first_channel.registered ≡ true
unfolding open_channel new_exec_record
joined_on = refl

cancel_in_between_panics_example :
    Option.map
      (λ c. c.panicked)
      (get_elem? (deliver_at 0 (cancel 0 (append_locked stdout (1 ∷ 2 ∷ []) joined))).subscribers 0)
    ≡ some true
cancel_in_between_panics_example =
    cancel_in_between_panics 5 joined stdout (1 ∷ 2 ∷ []) 0 first_channel joined_limit joined_room
      joined_at joined_on

small-AllSound : AllSound small
unfolding new_exec_record
small-AllSound = tt

perform_all-AllSound_example : AllSound (
    perform_all
      (subscribes 0
        ∷ appends stdout (1 ∷ [])
        ∷ receives 0
        ∷ cancels 0
        ∷ finishes completed (pos 0) "" 9
        ∷ [])
      small)
perform_all-AllSound_example =
    perform_all-AllSound
      (subscribes 0
        ∷ appends stdout (1 ∷ [])
        ∷ receives 0
        ∷ cancels 0
        ∷ finishes completed (pos 0) "" 9
        ∷ [])
      small small-AllSound

subscribe-replay_example :
    ((subscribe 1 written).0.subscribers ≡ written.subscribers ++ open_channel 1 written ∷ [])
    × ((open_channel 1 written).buffer ≡ take channel_capacity (since 1 written.chunks))
    × ((open_channel 1 written).closed ≡ not (is_running written.status))
    × ((open_channel 1 written).registered ≡ is_running written.status)
    × ((subscribe 1 written).0.chunks ≡ written.chunks)
subscribe-replay_example = subscribe-replay 1 written

abbrev stored : ExecRecord
stored =
    rebuilt "e1" "s1" "ls" "" none false (pos 5) (pos 0) false "" 7 9 completed (1 ∷ 2 ∷ [])
      (3 ∷ [])

loaded-IsValid_example : IsValid 5 stored
loaded-IsValid_example =
    loaded-IsValid "e1" "s1" "ls" "" none false (pos 5) (pos 0) false "" 7 9 5 completed
      (1 ∷ 2 ∷ []) (3 ∷ []) refl (omega arith)

abbrev calls : List Call
calls = appends stdout (1 ∷ 2 ∷ []) ∷ subscribes 0 ∷ finishes completed (pos 0) "" 9 ∷ []

perform_all-Represents_example : Represents 5 (perform_all calls small) (log_all calls empty_log)
perform_all-Represents_example =
    perform_all-Represents calls 5 small empty_log
      (new_exec_record-Represents "e1" "s1" ("ls" ∷ []) none "" false (pos 5) 7 5 clamp_small)
      ((refl, omega arith), (tt, (refl, tt)))
