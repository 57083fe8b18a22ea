-- ===== src/Sandbox/Manager.antt =====
-- adapter/internal/sandbox/manager.go: `Manager` and its methods. The cluster, the guest agent and
-- the database answer from outside: `Answers` and `Check` hold what they say, and `effects` lists
-- what the manager asks of them that they keep.
pub mod Cleanup
pub mod Lifecycle
pub mod Birth
pub mod Newborn
pub mod Attached
pub mod Reconcile
pub mod Recheck
use microvm_agentic_sandbox.Prelude.{
  ℕ, zero, String, Bool, true, false, ◌==◌, ◌&&◌, not, Option, none, some, List, [], ◌∷◌, ◌++◌,
  str_eq, if◌then◌else◌, ℤ, pos, Time,
}
use microvm_agentic_sandbox.Prelude.Dict
use microvm_agentic_sandbox.Prelude.Dict.{Dict}
use microvm_agentic_sandbox.Exec.Table.{EnvCodec, null_if_empty, or_empty_map, stored_time}
use microvm_agentic_sandbox.Sandbox.Table.{
  Sandbox, CreateSpec, SandboxRow, null_if_zero, add_seconds, stored_instant, find_sandbox,
  insert_sandbox, end_rows, rows_affected, scan_sandbox,
}

-- The calls to the outside, in their order: `pod_created` is a `CreateSandboxPod` that returned a pod,
-- `pod_create_failed` one that returned an error, of which the manager does not know whether it took
-- effect; `pod_delete_asked` is a `DeleteSandboxPod`, whatever it returned.
pub data Effect : Type 0 where
  pod_created pod_create_failed : String → String → Effect
  pod_delete_asked : String → Effect
  agent_dialed : String → ℕ → Effect
  agent_closed : ℕ → Effect

-- `Manager`, with the sandboxes table
pub record Manager : Type 0 where
  pub sandboxes : List SandboxRow
  pub agents : Dict ℕ
  pub effects : List Effect

pub data ManagerError : Type 0 where
  sandbox_not_found sandbox_query_failed update_failed : ManagerError
  create_pod_failed pod_not_ready dial_failed ping_failed : ManagerError
  tags_failed environment_failed sandbox_insert_failed delete_pod_failed : ManagerError

pub data Result {ℓ} (A : Type ℓ) : Type ℓ where
  done_with : A → Result A
  failed : ManagerError → Result A

abbrev pub note : Effect → Manager → Manager
note e m = record m { effects = m.effects ++ e ∷ [] }

-- `DeleteSandboxPod` and `Close`, where the error is dropped
abbrev pub delete_pod : String → Manager → Manager
delete_pod id m = note (pod_delete_asked id) m

abbrev pub close_and_delete : ℕ → String → Manager → Manager
close_and_delete ac id m = delete_pod id (note (agent_closed ac) m)

-- What one `GetSandboxPod` answers.
pub data PodReply : Type 0 where
  pod_missing pod_unknown : PodReply
  pod_found : String → String → PodReply

abbrev pub is_ready : String → String → Bool
is_ready phase ip = str_eq phase "Running" && not (str_eq ip "")

-- `waitForPodReady`, over the answers that come before the deadline or the end of the context
unfoldable pub wait_for_pod_ready : List PodReply → Option String
wait_for_pod_ready [] = none
wait_for_pod_ready (pod_missing ∷ polls) = none
wait_for_pod_ready (pod_unknown ∷ polls) = none
wait_for_pod_ready (pod_found phase ip ∷ polls) =
    let later = wait_for_pod_ready polls in if is_ready phase ip then some ip else later

-- `pingAgent`, over the pings that end before the deadline or the end of the context
unfoldable pub ping_agent : List Bool → Bool
ping_agent [] = false
ping_agent (answered ∷ pings) = let later = ping_agent pings in if answered then true else later

pub record Pod : Type 0 where
  pub name : String
  pub namespace : String

-- What the outside answers to one `Create`.
pub record Answers : Type 0 where
  pub pod : Option Pod
  pub polls : List PodReply
  pub dial : Option ℕ
  pub pings : List Bool
  pub fault : Bool

-- the default of half an hour
abbrev pub session_seconds : ℤ → ℤ
session_seconds (pos zero) = pos 1800
session_seconds n = n

abbrev pub egress_of : String → String
egress_of egress = if str_eq egress "" then "none" else egress

-- the row that `Create` inserts
unfoldable pub new_row : CreateSpec → Pod → String → String → String → Time → SandboxRow
new_row spec pod ip tags environment now = record {
  id = spec.id;
  pod_name = pod.name;
  pod_ip = some ip;
  namespace = pod.namespace;
  image = spec.image;
  flavor = spec.flavor;
  tenant_id = spec.tenant_id;
  tags = tags;
  status = "running";
  end_cause = none;
  environment = environment;
  network_egress = egress_of spec.network_egress;
  idle_timeout_seconds = null_if_zero spec.idle_timeout_seconds;
  idle_action = null_if_empty spec.idle_action;
  max_session_seconds = some (session_seconds spec.max_session_seconds);
  callback_url = null_if_empty spec.callback_url;
  created_at = stored_time now;
  deadline = stored_instant (add_seconds now (session_seconds spec.max_session_seconds));
  ended_at = none;
}

-- the `Sandbox` that `Create` returns
unfoldable pub new_sandbox : CreateSpec → Pod → String → ℕ → Time → Sandbox
new_sandbox spec pod ip ac now = record {
  id = spec.id;
  pod_name = pod.name;
  pod_ip = ip;
  namespace = pod.namespace;
  image = spec.image;
  flavor = spec.flavor;
  tenant_id = spec.tenant_id;
  tags = spec.tags;
  environment = spec.environment;
  network_egress = egress_of spec.network_egress;
  max_session_seconds = session_seconds spec.max_session_seconds;
  idle_timeout_seconds = spec.idle_timeout_seconds;
  idle_action = spec.idle_action;
  callback_url = spec.callback_url;
  status = "running";
  end_cause = "";
  created = now;
  deadline = add_seconds now (session_seconds spec.max_session_seconds);
  ended_at = none;
  agent = some ac;
}

-- `Create`, stage after stage: each takes the answer of its call.
module _ (codec : EnvCodec) (spec : CreateSpec) (answers : Answers) (now : Time) where
  on_insert : Pod → String → ℕ → Option (List SandboxRow) → Manager → Result Sandbox × Manager
  on_insert pod ip ac none m = (failed sandbox_insert_failed, close_and_delete ac spec.id m)
  on_insert pod ip ac (some rows) m = (
    done_with (new_sandbox spec pod ip ac now),
    record m { sandboxes = rows; agents = Dict.put m.agents spec.id ac },
  )

  on_marshal : Pod → String → ℕ → Option String → Option String → Manager → Result Sandbox × Manager
  on_marshal pod ip ac none environment m = (failed tags_failed, close_and_delete ac spec.id m)
  on_marshal pod ip ac (some tags) none m =
      (failed environment_failed, close_and_delete ac spec.id m)
  on_marshal pod ip ac (some tags) (some environment) m =
      on_insert pod ip ac
        (insert_sandbox answers.fault (new_row spec pod ip tags environment now) m.sandboxes) m

  on_ping : Pod → String → ℕ → Bool → Manager → Result Sandbox × Manager
  on_ping pod ip ac false m = (failed ping_failed, close_and_delete ac spec.id m)
  on_ping pod ip ac true m =
      on_marshal pod ip ac (codec.marshal (or_empty_map spec.tags))
        (codec.marshal (or_empty_map spec.environment)) m

  on_dial : Pod → String → Option ℕ → Manager → Result Sandbox × Manager
  on_dial pod ip none m = (failed dial_failed, delete_pod spec.id m)
  on_dial pod ip (some ac) m =
      on_ping pod ip ac (ping_agent answers.pings) (note (agent_dialed spec.id ac) m)

  on_ready : Pod → Option String → Manager → Result Sandbox × Manager
  on_ready pod none m = (failed pod_not_ready, delete_pod spec.id m)
  on_ready pod (some ip) m = on_dial pod ip answers.dial m

  on_pod : Option Pod → Manager → Result Sandbox × Manager
  on_pod none m = (failed create_pod_failed, note (pod_create_failed spec.id spec.image) m)
  on_pod (some pod) m =
      on_ready pod (wait_for_pod_ready answers.polls) (note (pod_created spec.id spec.image) m)

  unfoldable pub create : Manager → Result Sandbox × Manager
  unfolding on_pod on_ready on_dial on_ping on_marshal on_insert
  create m = on_pod answers.pod m

-- `queryByID`; `fault` is a query that fails.
scanned : Option Sandbox → Result Sandbox
scanned none = failed sandbox_query_failed
scanned (some sb) = done_with sb

query_found : EnvCodec → Option SandboxRow → Result Sandbox
query_found codec none = failed sandbox_not_found
query_found codec (some row) = scanned (scan_sandbox codec row)

query_sandbox : EnvCodec → Bool → String → List SandboxRow → Result Sandbox
query_sandbox codec fault id rows =
    if fault then failed sandbox_query_failed else query_found codec (find_sandbox id rows)

attach : Option ℕ → Result Sandbox → Result Sandbox
attach ac (failed e) = failed e
attach ac (done_with sb) =
    if str_eq sb.status "ended"
    then failed sandbox_not_found
    else done_with (record sb { agent = ac })

-- `Manager.Get`
unfoldable pub get_sandbox : EnvCodec → Bool → String → Manager → Result Sandbox
unfolding attach query_sandbox query_found scanned
get_sandbox codec fault id m =
    attach (Dict.get m.agents id) (query_sandbox codec fault id m.sandboxes)

-- What `DeleteSandboxPod` answers.
pub data DeleteReply : Type 0 where
  pod_went pod_was_gone pod_stays : DeleteReply

close_agent : Option ℕ → Manager → Manager
close_agent none m = m
close_agent (some ac) m = note (agent_closed ac) m

pod_result : DeleteReply → Result (Unit {0})
pod_result pod_stays = failed delete_pod_failed
pod_result _ = done_with tt

-- `Delete` past the test on `RowsAffected`
take_down : DeleteReply → String → Manager → Result (Unit {0}) × Manager
take_down reply id m = (
  pod_result reply,
  delete_pod id
      (close_agent (Dict.get m.agents id) (record m { agents = Dict.remove m.agents id })),
)

-- `Manager.Delete`
unfoldable pub delete_sandbox :
    Bool → DeleteReply → String → Time → Manager → Result (Unit {0}) × Manager
unfolding take_down close_agent pod_result
delete_sandbox fault reply id now m =
    if fault
    then (failed update_failed, m)
    else if rows_affected id m.sandboxes == 0
    then (done_with tt, m)
    else take_down reply id (record m { sandboxes = end_rows id "user_kill" now m.sandboxes })
