-- ===== src/Sandbox/Manager/Cleanup.antt =====
-- What a `Create` leaves behind when it fails, and what a `Delete` asks for.
use microvm_agentic_sandbox.Prelude.{
  ℕ, ◌≡◌, refl, ap, ◌∙◌, ◌==◌, String, Bool, true, false, Option, none, some, List, [], ◌∷◌, ◌++◌,
  append_assoc, Time,
}
use microvm_agentic_sandbox.Prelude.Dict
use microvm_agentic_sandbox.Exec.Table.{EnvCodec}
use microvm_agentic_sandbox.Sandbox.Table.{CreateSpec, SandboxRow, rows_affected}
use microvm_agentic_sandbox.Sandbox.Manager.{
  Effect, pod_created, pod_create_failed, pod_delete_asked, agent_dialed, agent_closed, Manager,
  ManagerError, failed, note, Pod, Answers, on_insert, on_marshal, on_ping, on_dial, on_ready,
  on_pod, create, DeleteReply, close_agent, take_down, delete_sandbox,
}

-- After a creation of the pod that failed nothing is asked; else the deletion of the pod is asked for,
-- last, and an agent that was dialed is closed before.
pub data IsCleanedUp (id image : String) : List Effect → Type 0 where
  no_pod : IsCleanedUp id image (pod_create_failed id image ∷ [])
  no_agent : IsCleanedUp id image (pod_created id image ∷ pod_delete_asked id ∷ [])
  agent_too :
      (ac : ℕ)
      → IsCleanedUp id image
          (pod_created id image ∷ agent_dialed id ac ∷ agent_closed ac ∷ pod_delete_asked id ∷ [])

-- `n` is `m` but for the calls of a clean-up.
pub record IsUndone (id image : String) (m n : Manager) : Type 0 where
  pub same_rows : n.sandboxes ≡ m.sandboxes
  pub same_agents : n.agents ≡ m.agents
  pub trace : List Effect
  pub traced : n.effects ≡ m.effects ++ trace
  pub cleaned : IsCleanedUp id image trace

module _ (codec : EnvCodec) (spec : CreateSpec) (answers : Answers) (now : Time) (m : Manager)
    (e : ManagerError) where
  -- the manager when the agent has been dialed
  abbrev dialed : ℕ → Manager
  dialed ac = note (agent_dialed spec.id ac) (note (pod_created spec.id spec.image) m)

  closed :
      (ac : ℕ)
      → IsUndone spec.id spec.image m
          (note (pod_delete_asked spec.id) (note (agent_closed ac) (dialed ac)))
  closed ac = record {
    same_rows = refl;
    same_agents = refl;
    trace = _;
    traced =
        ap (λ es. (es ++ agent_closed ac ∷ []) ++ pod_delete_asked spec.id ∷ [])
          (append_assoc m.effects (pod_created spec.id spec.image ∷ [])
            (agent_dialed spec.id ac ∷ []))
        ∙ ap (λ es. es ++ pod_delete_asked spec.id ∷ [])
            (append_assoc m.effects (pod_created spec.id spec.image ∷ agent_dialed spec.id ac ∷ [])
              (agent_closed ac ∷ []))
        ∙ append_assoc m.effects
            (pod_created spec.id spec.image ∷ agent_dialed spec.id ac ∷ agent_closed ac ∷ [])
            (pod_delete_asked spec.id ∷ []);
    cleaned = agent_too ac;
  }

  deleted :
      IsUndone spec.id spec.image m
        (note (pod_delete_asked spec.id) (note (pod_created spec.id spec.image) m))
  deleted = record {
    same_rows = refl;
    same_agents = refl;
    trace = _;
    traced =
        append_assoc m.effects (pod_created spec.id spec.image ∷ [])
          (pod_delete_asked spec.id ∷ []);
    cleaned = no_agent;
  }

  insert-IsUndone :
      (pod : Pod) (ip : String) (ac : ℕ) (o : Option (List SandboxRow))
      → (on_insert codec spec answers now pod ip ac o (dialed ac)).0 ≡ failed e
      → IsUndone spec.id spec.image m (on_insert codec spec answers now pod ip ac o (dialed ac)).1
  unfolding on_insert
  insert-IsUndone pod ip ac none h = closed ac
  insert-IsUndone pod ip ac (some rows) h = cc

  marshal-IsUndone :
      (pod : Pod) (ip : String) (ac : ℕ) (tags environment : Option String)
      → (on_marshal codec spec answers now pod ip ac tags environment (dialed ac)).0 ≡ failed e
      → IsUndone spec.id spec.image m
          (on_marshal codec spec answers now pod ip ac tags environment (dialed ac)).1
  unfolding on_marshal
  marshal-IsUndone pod ip ac none environment h = closed ac
  marshal-IsUndone pod ip ac (some tags) none h = closed ac
  marshal-IsUndone pod ip ac (some tags) (some environment) h = insert-IsUndone pod ip ac _ h

  ping-IsUndone :
      (pod : Pod) (ip : String) (ac : ℕ) (answered : Bool)
      → (on_ping codec spec answers now pod ip ac answered (dialed ac)).0 ≡ failed e
      → IsUndone spec.id spec.image m
          (on_ping codec spec answers now pod ip ac answered (dialed ac)).1
  unfolding on_ping
  ping-IsUndone pod ip ac false h = closed ac
  ping-IsUndone pod ip ac true h = marshal-IsUndone pod ip ac _ _ h

  dial-IsUndone :
      (pod : Pod) (ip : String) (o : Option ℕ)
      → (on_dial codec spec answers now pod ip o (note (pod_created spec.id spec.image) m)).0
        ≡ failed e
      → IsUndone spec.id spec.image m
          (on_dial codec spec answers now pod ip o (note (pod_created spec.id spec.image) m)).1
  unfolding on_dial
  dial-IsUndone pod ip none h = deleted
  dial-IsUndone pod ip (some ac) h = ping-IsUndone pod ip ac _ h

  ready-IsUndone :
      (pod : Pod) (o : Option String)
      → (on_ready codec spec answers now pod o (note (pod_created spec.id spec.image) m)).0
        ≡ failed e
      → IsUndone spec.id spec.image m
          (on_ready codec spec answers now pod o (note (pod_created spec.id spec.image) m)).1
  unfolding on_ready
  ready-IsUndone pod none h = deleted
  ready-IsUndone pod (some ip) h = dial-IsUndone pod ip _ h

  pod-IsUndone :
      (o : Option Pod)
      → (on_pod codec spec answers now o m).0 ≡ failed e
      → IsUndone spec.id spec.image m (on_pod codec spec answers now o m).1
  unfolding on_pod
  pod-IsUndone none h = record {
    same_rows = refl;
    same_agents = refl;
    trace = _;
    traced = refl;
    cleaned = no_pod;
  }
  pod-IsUndone (some pod) h = ready-IsUndone pod _ h

  pub create_undone :
      (create codec spec answers now m).0 ≡ failed e
      → IsUndone spec.id spec.image m (create codec spec answers now m).1
  unfolding create
  create_undone h = pod-IsUndone answers.pod h

-- The agent is closed, if there is one, and the pod deleted.
pub data IsTornDown (id : String) : List Effect → Type 0 where
  pod_only : IsTornDown id (pod_delete_asked id ∷ [])
  agent_first : (ac : ℕ) → IsTornDown id (agent_closed ac ∷ pod_delete_asked id ∷ [])

take_down-IsTornDown :
    (reply : DeleteReply) (id : String) (m : Manager) (o : Option ℕ)
    → Dict.get m.agents id ≡ o
    → (trace : List Effect) × ((take_down reply id m).1.effects ≡ m.effects ++ trace)
      × IsTornDown id trace
unfolding take_down close_agent
take_down-IsTornDown reply id m none h = (_, rw h refl, pod_only)
take_down-IsTornDown reply id m (some ac) h = (
  _,
  rw h (append_assoc m.effects (agent_closed ac ∷ []) (pod_delete_asked id ∷ [])),
  agent_first ac,
)

pub delete_sandbox-IsTornDown :
    (reply : DeleteReply) (id : String) (now : Time) (m : Manager)
    → rows_affected id m.sandboxes == 0 ≡ false
    → (trace : List Effect) × ((delete_sandbox false reply id now m).1.effects ≡ m.effects ++ trace)
      × IsTornDown id trace
unfolding delete_sandbox
delete_sandbox-IsTornDown reply id now m live = rw live (take_down-IsTornDown reply id _ _ refl)
