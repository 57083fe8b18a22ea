-- ===== src/Tests/Sandboxes.antt =====
-- The manager of sandboxes: adapter/internal/sandbox/manager.go at concrete inputs.
use microvm_agentic_sandbox.Prelude.{
  ◌≡◌, refl, subst, str_eq, String, true, false, none, some, [], ◌∷◌, pos,
}
use microvm_agentic_sandbox.Prelude.Dict.{Dict}
use microvm_agentic_sandbox.Exec.Table.{EnvCodec, or_empty_map, null_if_empty}
use microvm_agentic_sandbox.Sandbox.Table.{
  Sandbox, CreateSpec, insert_sandbox, find_sandbox, SandboxRow, end_row, end_rows,
}
use microvm_agentic_sandbox.Sandbox.Manager.{
  Manager, pod_missing, ping_failed, done_with, failed, Answers, pod_found, wait_for_pod_ready,
  ping_agent, create, pod_went, pod_stays, delete_sandbox, new_row, new_sandbox,
}
use microvm_agentic_sandbox.Sandbox.Manager.Reconcile.{
  Check, recheck, check_all, running_ids, mark_ended,
}
use microvm_agentic_sandbox.Sandbox.Manager.Birth.{IsFaithful}
use microvm_agentic_sandbox.Sandbox.Manager.Lifecycle.{delete_sandbox_twice}

abbrev pub json : EnvCodec
json = record { marshal = λ m. some "{}"; unmarshal = λ s. some (some []) }

abbrev pub wanted : CreateSpec
wanted = record {
  id = "s1";
  image = "agent:1";
  flavor = "";
  tenant_id = "";
  tags = none;
  environment = none;
  network_egress = "";
  max_session_seconds = pos 0;
  idle_timeout_seconds = pos 0;
  idle_action = "";
  callback_url = "";
}

abbrev pub empty_manager : Manager
empty_manager = record { sandboxes = []; agents = []; effects = [] }

-- the pod comes up at the second look, but the agent never answers a ping
abbrev pub mute : Answers
mute = record {
  pod = some (record { name = "sandbox-s1"; namespace = "default" });
  polls = pod_found "Pending" "" ∷ pod_found "Running" "10.0.0.7" ∷ [];
  dial = some 4;
  pings = false ∷ false ∷ [];
  fault = false;
}

abbrev pub healthy : Answers
healthy = record mute { pings = false ∷ true ∷ [] }

pub ping_lost : (create json wanted mute 1000 empty_manager).0 ≡ failed ping_failed
unfolding create wait_for_pod_ready ping_agent
ping_lost = refl

abbrev one_sandbox : Manager
one_sandbox = (create json wanted healthy 1000 empty_manager).1

abbrev pub returned : Sandbox
returned =
    new_sandbox wanted (record { name = "sandbox-s1"; namespace = "default" }) "10.0.0.7" 4 1000

delete_sandbox_twice_example :
    delete_sandbox false pod_went "s1" 3000 (delete_sandbox false pod_stays "s1" 2000 one_sandbox).1
    ≡ (done_with tt, (delete_sandbox false pod_stays "s1" 2000 one_sandbox).1)
delete_sandbox_twice_example = delete_sandbox_twice pod_stays pod_went "s1" 2000 3000 one_sandbox

-- a codec for the empty map
abbrev pub empty_json : EnvCodec
empty_json = record {
  marshal = λ m. elim m [ [] ↦ some "{}" | _ ∷ _ ↦ none ];
  unmarshal = λ s. some (some []);
}

pub empty_json-IsFaithful : IsFaithful empty_json
empty_json-IsFaithful = record {
  decodes = λ m j h. empty_decodes m h;
  written = λ m j h. empty_written m j h;
}
  where
    empty_decodes :
        (m : Dict String) {j : String}
        → empty_json.marshal m ≡ some j
        → some (some []) ≡ some (some m)
    empty_decodes [] h = refl
    empty_decodes (x ∷ m) h = cc

    empty_written :
        (m : Dict String) (j : String) → empty_json.marshal m ≡ some j → str_eq j "" ≡ false
    empty_written [] j h = let same : "{}" ≡ j = cc in subst (λ s. str_eq s "" ≡ false) same refl
    empty_written (x ∷ m) j h = cc

sandbox_made : (create empty_json wanted healthy 1000 empty_manager).0 ≡ done_with returned
unfolding create wait_for_pod_ready ping_agent or_empty_map insert_sandbox new_row new_sandbox
    find_sandbox null_if_empty
sandbox_made = refl

abbrev pub old_row : SandboxRow
old_row =
    new_row wanted (record { name = "sandbox-s1"; namespace = "default" }) "10.0.0.7" "{}" "{}" 1000

abbrev restarted : Manager
restarted = record { sandboxes = old_row ∷ []; agents = []; effects = [] }

abbrev gone : Check
gone = record { pod = pod_missing; mark_fault = false; dial = none; pinged = false }

abbrev rechecked : Manager
rechecked = record restarted { sandboxes = end_row "host_failed" 2000 old_row ∷ [] }

recheck_ends : recheck false (λ id. gone) 2000 restarted ≡ some rechecked
unfolding recheck check_all running_ids mark_ended end_rows new_row
recheck_ends = refl

old_found : find_sandbox "s1" restarted.sandboxes ≡ some old_row
unfolding find_sandbox new_row
old_found = refl

old_runs : str_eq old_row.status "running" ≡ true
unfolding new_row
old_runs = refl
