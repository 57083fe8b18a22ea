-- ===== src/Sandbox/Manager/Reconcile.antt =====
-- adapter/internal/sandbox/manager.go: `Reconcile` and `markEnded`, over the answers of the cluster and of
-- the agents.
use microvm_agentic_sandbox.Prelude.{
  ℕ, String, Bool, Option, none, some, List, [], ◌∷◌, str_eq, if◌then◌else◌, Time,
}
use microvm_agentic_sandbox.Prelude.Dict
use microvm_agentic_sandbox.Sandbox.Table.{SandboxRow, end_rows}
use microvm_agentic_sandbox.Sandbox.Manager.{
  Manager, PodReply, pod_missing, pod_unknown, pod_found, is_ready, note, agent_dialed,
  agent_closed,
}

-- What the outside answers to `Reconcile` about one sandbox.
pub record Check : Type 0 where
  pub pod : PodReply
  pub mark_fault : Bool
  pub dial : Option ℕ
  pub pinged : Bool

-- `markEnded`
unfoldable pub mark_ended : Bool → String → String → Time → Manager → Manager
mark_ended fault id cause now m =
    if fault then m else record m { sandboxes = end_rows id cause now m.sandboxes }

unfoldable pub reattach : String → Option ℕ → Bool → Manager → Manager
reattach id none pinged m = m
reattach id (some ac) pinged m =
    let dialed = note (agent_dialed id ac) m in
    if pinged
    then record dialed { agents = Dict.put m.agents id ac }
    else note (agent_closed ac) dialed

-- One round of the loop of `Reconcile`.
unfoldable pub check_one : Check → String → Time → PodReply → Manager → Manager
check_one check id now pod_missing m = mark_ended check.mark_fault id "host_failed" now m
check_one check id now pod_unknown m = m
check_one check id now (pod_found phase ip) m =
    if is_ready phase ip then reattach id check.dial check.pinged m else m

unfoldable pub check_all : (String → Check) → Time → List String → Manager → Manager
unfolding check_one reattach
check_all checks now [] m = m
check_all checks now (id ∷ ids) m =
    check_all checks now ids (check_one (checks id) id now (checks id).pod m)

-- SELECT id … WHERE status = 'running'
unfoldable pub running_ids : List SandboxRow → List String
running_ids [] = []
running_ids (row ∷ rows) =
    let rest = running_ids rows in if str_eq row.status "running" then row.id ∷ rest else rest

-- `Manager.Reconcile`; `none` is the error of the first query.
unfoldable pub recheck : Bool → (String → Check) → Time → Manager → Option Manager
unfolding check_all
recheck fault checks now m =
    if fault then none else some (check_all checks now (running_ids m.sandboxes) m)
