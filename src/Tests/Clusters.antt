-- ===== src/Tests/Clusters.antt =====
-- The client of the cluster at concrete inputs: adapter/internal/k8s/client.go.
use microvm_agentic_sandbox.Prelude.{
  ◌≡◌, ◌≢◌, refl, sym, ap, subst, String, Bool, true, false, ◌&&◌, str_eq, eq_refl, Option, some,
  none, List, [], ◌∷◌, ◌++◌, ◌==◌, arith, Bool-cases, inl, inr, ◌⊎◌, if◌then◌else◌,
}
use microvm_agentic_sandbox.Prelude.Dict
use microvm_agentic_sandbox.Sandbox.Table.{rows_affected, insert_sandbox, find_sandbox}
use microvm_agentic_sandbox.Exec.Table.{or_empty_map, null_if_empty}
use microvm_agentic_sandbox.Sandbox.Manager.{
  Manager, pod_went, delete_sandbox, Answers, wait_for_pod_ready, ping_agent, create, new_row,
  new_sandbox, done_with, ping_failed, pod_stays, pod_created, pod_delete_asked, agent_dialed,
  agent_closed, Effect,
}
use microvm_agentic_sandbox.Cluster.{
  PodSpec, LivePod, KubeError, KubeReply, not_found, other_error, answered, refused, PodsApi,
  Client, sandbox_pod, create_sandbox_pod, delete_sandbox_pod, get_sandbox_pod,
}
use microvm_agentic_sandbox.Cluster.Laws.{IsDead, missing, leaving, IsLawful, HasNone}
use microvm_agentic_sandbox.Cluster.Replies.{created_pod, seen_pod, seen_pods, deleted_pod}
use microvm_agentic_sandbox.Cluster.Running.{HasPod, create-HasPod}
use microvm_agentic_sandbox.Cluster.Runs.{
  Runs, at_rest, moves, creates, removes, dials, closes, failed_create-HasNone,
  deleted_sandbox-HasNone, unsettled,
}
use microvm_agentic_sandbox.Tests.Sandboxes.{
  json, wanted, mute, healthy, empty_manager, old_row, returned, ping_lost,
}

-- A cluster that keeps the pods in memory, and lets go of a deleted pod at once.
abbrev pub Pods : Type 0
Pods = String → String → Option LivePod

abbrev at : String → String → String → String → Bool
at ns name ns' name' = str_eq ns ns' && str_eq name name'

abbrev pending : PodSpec → LivePod
pending spec = record { spec = spec; phase = "Pending"; pod_ip = ""; deleting = false }

abbrev pub create_in : String → PodSpec → Pods → Option LivePod → KubeReply LivePod × Pods
create_in ns spec k (some _) = (refused other_error, k)
create_in ns spec k none = (
  answered (pending spec),
  λ ns' name. if at ns spec.name ns' name then some (pending spec) else k ns' name,
)

abbrev pub delete_in : String → String → Pods → Option LivePod → KubeReply (Unit {0}) × Pods
delete_in ns name k none = (refused not_found, k)
delete_in ns name k (some _) =
    (answered tt, λ ns' name'. if at ns name ns' name' then none else k ns' name')

abbrev pub get_in : Option LivePod → KubeReply LivePod
get_in none = refused not_found
get_in (some p) = answered p

abbrev pub memory_api : PodsApi
memory_api = record {
  State = Pods;
  initial = λ ns name. none;
  stored = λ k ns name. k ns name;
  create = λ ns spec k. create_in ns spec k (k ns spec.name);
  delete = λ ns name k. delete_in ns name k (k ns name);
  get = λ ns name k. get_in (k ns name);
}

module _ (ns : String) (spec : PodSpec) (k : Pods) (p : LivePod) where
  free_in :
      (o : Option LivePod)
      → (create_in ns spec k o).0 ≡ answered p
      → (o ≡ none) × (pending spec ≡ p)
  free_in none h = (refl, cc)
  free_in (some q) h = cc

  stored_in :
      (o : Option LivePod) (ns' name : String)
      → (create_in ns spec k o).0 ≡ answered p
      → (create_in ns spec k o).1 ns' name
        ≡ (if str_eq ns ns' && str_eq spec.name name then some p else k ns' name)
  stored_in none ns' name h =
      let same : pending spec ≡ p = cc in
      ap (λ x. if str_eq ns ns' && str_eq spec.name name then some x else k ns' name) same
  stored_in (some q) ns' name h = cc

refused_in :
    (ns : String) (spec : PodSpec) (k : Pods) (e : KubeError) (o : Option LivePod)
    (ns' name : String)
    → (create_in ns spec k o).0 ≡ refused e
    → IsDead (k ns' name)
    → IsDead ((create_in ns spec k o).1 ns' name)
refused_in ns spec k e none ns' name h dead = cc
refused_in ns spec k e (some q) ns' name h dead = dead

module _ (ns name : String) (k : Pods) where
  gone_in :
      (o : Option LivePod)
      → (delete_in ns name k o).0 ≡ answered tt
      → IsDead ((delete_in ns name k o).1 ns name)
  gone_in none h = cc
  gone_in (some q) h = rw (eq_refl ns, eq_refl name) missing

  missing_in :
      (o : Option LivePod)
      → k ns name ≡ o
      → (delete_in ns name k o).0 ≡ refused not_found
      → IsDead ((delete_in ns name k o).1 ns name)
  missing_in none e h = rw e missing
  missing_in (some q) e h = cc

  elsewhere_in :
      (o : Option LivePod) (ns' name' : String)
      → IsDead (k ns' name')
      → IsDead ((delete_in ns name k o).1 ns' name')
  elsewhere_in none ns' name' dead = dead
  elsewhere_in (some q) ns' name' dead = elim (Bool-cases (at ns name ns' name')) [
    | inl e ↦ rw e missing
    | inr e ↦ rw e dead
  ]

get_in-some : (o : Option LivePod) (p : LivePod) → get_in o ≡ answered p → o ≡ some p
get_in-some none p h = cc
get_in-some (some q) p h = cc

memory_api-IsLawful : IsLawful memory_api
memory_api-IsLawful = record {
  name_free = λ ns spec k p h. (free_in ns spec k p _ h).0;
  spec_kept = λ ns spec k p h. ap (λ x. x.spec) (sym (free_in ns spec k p _ h).1);
  stored-create = λ ns spec k p ns' name h. stored_in ns spec k p _ ns' name h;
  refused_create = λ ns spec k e ns' name h settled dead. refused_in ns spec k e _ ns' name h dead;
  deleted-IsDead = λ ns name k h. gone_in ns name k _ h;
  missing-IsDead = λ ns name k h. missing_in ns name k _ refl h;
  delete_elsewhere = λ ns name k ns' name' dead. elsewhere_in ns name k _ ns' name' dead;
  stored-get = λ ns name k p h. get_in-some _ p h;
}

abbrev client : Client
client = record { api = memory_api; namespace = "default" }

abbrev bare : Pods
bare = λ ns name. none

abbrev booked : Pods
booked = (create_sandbox_pod client "s1" "agent:1" bare).1

-- the pod has come up
abbrev up : Pods
up = λ ns name.
    if at "default" "sandbox-s1" ns name
    then some (record {
      spec = sandbox_pod "default" "s1" "agent:1";
      phase = "Running";
      pod_ip = "10.0.0.7";
      deleting = false;
    })
    else none

abbrev seen : Answers
seen = record healthy {
  pod = created_pod (create_sandbox_pod client "s1" "agent:1" bare).0;
  polls = seen_pods client "s1" (booked ∷ up ∷ []);
}

made_of_seen : (create json wanted seen 1000 empty_manager).0 ≡ done_with returned
unfolding create wait_for_pod_ready ping_agent or_empty_map insert_sandbox new_row new_sandbox
    find_sandbox null_if_empty created_pod seen_pods seen_pod create_sandbox_pod get_sandbox_pod
    sandbox_pod
made_of_seen = refl

create-HasPod_example : HasPod client wanted bare (booked ∷ up ∷ []) returned
create-HasPod_example =
    create-HasPod client memory_api-IsLawful wanted json seen 1000 empty_manager returned bare
      (booked ∷ up ∷ []) refl refl made_of_seen

abbrev mute_trace : List Effect
mute_trace =
    pod_created "s1" "agent:1" ∷ agent_dialed "s1" 4 ∷ agent_closed 4 ∷ pod_delete_asked "s1" ∷ []

mute_effects : (create json wanted mute 1000 empty_manager).1.effects ≡ mute_trace
unfolding create wait_for_pod_ready ping_agent
mute_effects = refl

abbrev over : Pods
over = (delete_sandbox_pod client "s1" up).1

booked_answered :
    (create_sandbox_pod client "s1" "agent:1" bare).0
    ≡ answered (pending (sandbox_pod "default" "s1" "agent:1"))
unfolding create_sandbox_pod sandbox_pod
booked_answered = refl

up_goes : deleted_pod (delete_sandbox_pod client "s1" up).0 ≢ pod_stays
unfolding deleted_pod delete_sandbox_pod
up_goes h = cc

held_leaving : (p : LivePod) → IsDead (some p) → p.deleting ≡ true
held_leaving _ (leaving p h) = h

-- the pod comes up on its own
comes_up : (name : String) → HasNone client name booked → HasNone client name up
unfolding create_sandbox_pod sandbox_pod
comes_up name dead = elim (Bool-cases (at "default" "sandbox-s1" "default" name)) [
  | inl e ↦
      let held : IsDead (some (pending (sandbox_pod "default" "s1" "agent:1"))) =
        subst
          (λ b. IsDead (if b then some (pending (sandbox_pod "default" "s1" "agent:1")) else none))
          e dead in
      absurd (ground (arith, held_leaving _ held))
  | inr e ↦ rw e missing
]

mute_trace-Runs : Runs client mute_trace bare over
mute_trace-Runs = creates "s1" "agent:1" _ bare over _ booked_answered (
    moves booked up over _ comes_up
      (dials "s1" 4 up over _ (closes 4 up over _ (removes "s1" up over _ up_goes (at_rest over)))))

failed_create-HasNone_example :
    HasNone client "sandbox-s1" over
    ⊎ (unsettled client "sandbox-s1" mute_trace bare over mute_trace-Runs ≡ true)
failed_create-HasNone_example =
    failed_create-HasNone client memory_api-IsLawful "sandbox-s1" json wanted mute 1000
      empty_manager ping_failed mute_trace bare over mute_trace-Runs ping_lost mute_effects missing

abbrev kept : Manager
kept = record { sandboxes = old_row ∷ []; agents = ("s1", 4) ∷ []; effects = [] }

kept_live : rows_affected "s1" kept.sandboxes == 0 ≡ false
unfolding rows_affected new_row
kept_live = refl

kept_asks :
    (delete_sandbox false pod_went "s1" 2000 kept).1.effects
    ≡ [] ++ agent_closed 4 ∷ pod_delete_asked "s1" ∷ []
unfolding delete_sandbox rows_affected new_row Dict.get Dict.remove
kept_asks = refl

deleted_sandbox-HasNone_example : HasNone client "sandbox-s1" over
deleted_sandbox-HasNone_example =
    deleted_sandbox-HasNone client memory_api-IsLawful pod_went "s1" 2000 kept
      (agent_closed 4 ∷ pod_delete_asked "s1" ∷ []) up over kept_live kept_asks
      (closes 4 up over _ (removes "s1" up over _ up_goes (at_rest over)))
