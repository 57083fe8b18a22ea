-- ===== src/Tests/Interleavings.antt =====
-- Goroutines on one registry at concrete inputs: adapter/internal/exec/registry.go and
-- adapter/internal/api/exec.go.
use microvm_agentic_sandbox.Prelude.{
  ◌≡◌, ◌≢◌, refl, ap, ◌∙◌, true, false, some, none, List, [], ◌∷◌, pos, arith, String, sym, ℕ,
}
use microvm_agentic_sandbox.Prelude.Dict
use microvm_agentic_sandbox.Exec.Chunk.{stdout, stderr, completed}
use microvm_agentic_sandbox.Exec.Table.{
  insert_row, register_row, or_empty_map, null_if_empty, find_row, scan_env,
}
use microvm_agentic_sandbox.Exec.Record.{
  new_exec_record, append_locked, subscribe, open_channel, cancel, clamp_output,
}
use microvm_agentic_sandbox.Exec.Record.Sends.{finishes}
use microvm_agentic_sandbox.Exec.Record.Moves.{make, captures, sends, joins, quits}
use microvm_agentic_sandbox.Exec.Record.Steps.{deliver_at}
use microvm_agentic_sandbox.Exec.Channel.{deliver, unsubscribe, replay}
use microvm_agentic_sandbox.Exec.Record.Refine.{
  empty_log, log_all, Represents, new_exec_record-Represents,
}
use microvm_agentic_sandbox.Exec.Record.Kept.{identity}
use microvm_agentic_sandbox.Exec.Registry.{
  Registry, ok, enter, register, delete_by_sandbox, delete_ids, insert_exec, remove_in_memory,
}
use microvm_agentic_sandbox.Exec.Registry.Index.{IsIndexed, enter-IsIndexed}
use microvm_agentic_sandbox.Exec.Registry.Actions.{
  Action, enters, inserts, moves, persists, deletes, act, enter_new, run, IsNew, Allowed, writes_at,
}
use microvm_agentic_sandbox.Exec.Registry.Actions.Agree.{run-IsIndexed}
use microvm_agentic_sandbox.Exec.Registry.Actions.Alone.{run-alone}
use microvm_agentic_sandbox.Sandbox.Table.{find_sandbox, scan_sandbox}
use microvm_agentic_sandbox.Sandbox.Manager.{get_sandbox, new_row}
use microvm_agentic_sandbox.Api.Drain.Calls.{drain_calls}
use microvm_agentic_sandbox.Api.Types.{ExecRequest}
use microvm_agentic_sandbox.Api.Http.{body_of, go, write_json, exec_body, output_body}
use microvm_agentic_sandbox.Api.Execs.{live_sandbox, get_output_handler}
use microvm_agentic_sandbox.Api.Execs.Start.{
  create_checks, is_blank, placed, record_for, create_handler, with_registry,
}
use microvm_agentic_sandbox.Api.Execs.Start.Foreground.{registration}
use microvm_agentic_sandbox.Api.Execs.Start.Logged.{finished_output, logged_output}
use microvm_agentic_sandbox.Api.Execs.Start.Background.{create_handler_background}
use microvm_agentic_sandbox.Tests.Handlers.{
  json, texts, no_faults, moment, dialed, ls, frames, agent, exec_two, no_execs, no_execs-IsIndexed,
  ls_limit,
}

-- nothing is held
nothing_held : (p : ℕ) → IsNew p no_execs
nothing_held p id h = unfold Dict.get in cc

abbrev schedule : List Action
schedule =
    enters 1 exec_two
    ∷ deletes "s1"
    ∷ inserts json false 1
    ∷ moves 1 (captures stdout (7 ∷ []))
    ∷ persists false exec_two
    ∷ deletes "s2"
    ∷ []

some_one : (q : ℕ) → some 1 ≡ some q → q ≡ 1
some_one q h = cc

schedule-Allowed : Allowed schedule no_execs
unfolding act enter_new enter Dict.get Dict.put Dict.remove delete_by_sandbox delete_ids
    new_exec_record insert_exec insert_row find_row
schedule-Allowed = (nothing_held 1, (tt, (λ q h. some_one q h, (tt, (tt, (tt, tt))))))

run-IsIndexed_example : IsIndexed (run schedule no_execs)
run-IsIndexed_example = run-IsIndexed schedule no_execs schedule-Allowed no_execs-IsIndexed

abbrev later : ExecRequest
later = record ls { background = true }

later_checked :
    create_checks json texts no_faults moment "s1" "e1" agent (body_of later) dialed
    ≡ go (some 4, later)
unfolding create_checks live_sandbox get_sandbox new_row Dict.get scan_sandbox is_blank find_sandbox
    null_if_empty scan_env
later_checked = refl

later_registered : (registration json texts no_faults moment "s1" "e1" agent later dialed).0 ≡ ok tt
unfolding register placed record_for new_exec_record Dict.get enter insert_row register_row
    or_empty_map find_row
later_registered = refl

-- Another exec is entered and rolled back, a reader joins and leaves, two frames are recorded, and another
-- sandbox goes.
abbrev actions : List Action
actions =
    enters 1 exec_two
    ∷ moves 0 (joins 0)
    ∷ moves 0 (captures stdout (1 ∷ 2 ∷ []))
    ∷ inserts json true 1
    ∷ moves 1 (captures stdout (7 ∷ []))
    ∷ moves 0 (sends 0)
    ∷ moves 0 (quits 0)
    ∷ moves 0 (captures stderr (3 ∷ []))
    ∷ deletes "s2"
    ∷ []

later_records :
    (create_handler json texts no_faults moment "s1" "e1" agent
      (body_of later)
      dialed).1.registry.records
    ≡ ("e1", 0) ∷ []
unfolding create_handler create_checks live_sandbox get_sandbox new_row Dict.get Dict.put
    Dict.remove scan_sandbox is_blank find_sandbox null_if_empty scan_env register placed record_for
    new_exec_record enter insert_row register_row or_empty_map find_row
later_records = refl

one_held : (id : String) → Dict.get {V = ℕ} (("e1", 0) ∷ []) id ≢ some 1
unfolding Dict.get
one_held id h = ground arith

actions-Allowed :
    Allowed actions
      (create_handler json texts no_faults moment "s1" "e1" agent (body_of later) dialed).1.registry
unfolding act enter_new create_handler create_checks live_sandbox get_sandbox new_row Dict.get
    Dict.put Dict.remove scan_sandbox is_blank find_sandbox null_if_empty scan_env register placed
    record_for new_exec_record enter insert_row register_row or_empty_map find_row make
    append_locked subscribe open_channel cancel deliver_at deliver unsubscribe replay insert_exec
    remove_in_memory clamp_output
actions-Allowed = (
  λ id h. one_held id (ap (λ records. Dict.get records id) (sym later_records) ∙ h),
  (tt, ((refl, tt), (λ q h. some_one q h, (tt, ((refl, tt), (tt, ((refl, tt), (tt, tt)))))))),
)

create_handler_background_example :
    ((create_handler json texts no_faults moment "s1" "e1" agent (body_of later) dialed).0
      ≡ go (
          write_json 202 (
            exec_body (record {
              exec_id = "e1";
              exit_code = none;
              out = [];
              err = [];
              truncated = false;
            }))))
    × (get_output_handler json texts no_faults "s1" "e1" (
          with_registry dialed (
            run actions
              (create_handler json texts no_faults moment "s1" "e1" agent
                (body_of later)
                dialed).1.registry))
        ≡ go (
            write_json 200
              (output_body (logged_output "e1" 2 (log_all (writes_at 0 actions) empty_log)))))
    × (logged_output "e1" 2 (log_all (drain_calls 20 false frames) empty_log)
        ≡ finished_output "e1" 2 frames)
create_handler_background_example =
    create_handler_background json texts no_faults moment "s1" "e1" agent (body_of later) dialed 4
      later frames false 2 actions (finishes completed (pos 3) "" 20 ∷ []) later_checked
      later_registered refl refl ls_limit no_execs-IsIndexed (nothing_held 0) actions-Allowed
      (tt, (tt, (tt, (refl, (tt, (tt, (tt, (tt, (refl, tt))))))))) refl

-- exec_two is held at the place 0
abbrev holding : Registry
holding = enter 0 (no_execs.heap 0) no_execs

nothing_entered : Dict.get no_execs.records (no_execs.heap 0).id ≡ none
unfolding Dict.get
nothing_entered = refl

holding-IsIndexed : IsIndexed holding
holding-IsIndexed = enter-IsIndexed 0 no_execs no_execs-IsIndexed nothing_entered

abbrev lone : List Action
lone =
    moves 0 (captures stdout (7 ∷ []))
    ∷ moves 0 (joins 0)
    ∷ persists false exec_two
    ∷ deletes "s1"
    ∷ []

lone-Allowed : Allowed lone holding
unfolding enter new_exec_record
lone-Allowed = (tt, (tt, (tt, (tt, tt))))

held_two : Dict.get holding.records "e2" ≡ some 0
unfolding enter Dict.get Dict.put new_exec_record
held_two = refl

owned_two : (holding.heap 0).sandbox_id ≡ "s2"
unfolding enter new_exec_record
owned_two = refl

holding-Represents : Represents 5 (holding.heap 0) empty_log
unfolding enter clamp_output
holding-Represents = new_exec_record-Represents "e2" "s2" ("ls" ∷ []) none "" false (pos 5) 7 5 refl

run-alone_example :
    (Dict.get (run lone holding).records "e2" ≡ some 0)
    × (identity ((run lone holding).heap 0) ≡ identity (holding.heap 0))
    × Represents 5 ((run lone holding).heap 0) (log_all (writes_at 0 lone) empty_log)
run-alone_example =
    run-alone lone holding "s2" "e2" 0 5 empty_log holding-IsIndexed lone-Allowed
      (tt, (tt, (tt, (refl, tt)))) owned_two held_two ((refl, omega arith), tt) holding-Represents
