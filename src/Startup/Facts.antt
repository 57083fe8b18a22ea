-- ===== src/Startup/Facts.antt =====
-- What the two `Reconcile` of `main` leave in the manager and in the registry.
use mathlib.Core.Option
use microvm_agentic_sandbox.Prelude.{
  ℕ, ◌≡◌, refl, String, Bool, true, false, none, some, List, str_eq, if◌then◌else◌, Time, All,
}
use microvm_agentic_sandbox.Prelude.Dict
use microvm_agentic_sandbox.Exec.Table.{ExecRow, find_row, orphan, reconcile}
use microvm_agentic_sandbox.Exec.Registry.{Registry}
use microvm_agentic_sandbox.Exec.Registry.Index.{IsIndexed, empty-IsIndexed}
use microvm_agentic_sandbox.Exec.Registry.Closing.{is_open, reconcile-closes}
use microvm_agentic_sandbox.Sandbox.Table.{SandboxRow, find_sandbox, end_row}
use microvm_agentic_sandbox.Sandbox.Manager.{Manager}
use microvm_agentic_sandbox.Sandbox.Manager.Reconcile.{Check, recheck}
use microvm_agentic_sandbox.Sandbox.Manager.Recheck.{is_lost, recheck-running}
use microvm_agentic_sandbox.Sandbox.Manager.Attached.{IsAttached, recheck-IsAttached}
use microvm_agentic_sandbox.Cluster.{Client}
use microvm_agentic_sandbox.Startup.{World, after, check_of, new_manager, new_registry}

-- The sandboxes that were running have been looked up in the cluster by the client.
pub record IsRechecked (w : World) (c : Client) (before : List SandboxRow) (m : Manager)
    : Type 1 where
  pub rows :
      (id : String) (row : SandboxRow)
      → find_sandbox id before ≡ some row
      → str_eq row.status "running" ≡ true
      → find_sandbox id m.sandboxes
        ≡ some (
            if is_lost (check_of w c id).pod (check_of w c id).mark_fault
            then end_row "host_failed" w.checked_at row
            else row)
  pub agents :
      (id : String) (ac : ℕ) → Dict.get m.agents id ≡ some ac → IsAttached (check_of w c id) ac

-- The registry holds nothing, and no row is left running.
pub record IsClosed (now : Time) (before : List ExecRow) (s : Registry) : Type 0 where
  pub indexed : IsIndexed s
  pub none_held : (id : String) → Dict.get s.records id ≡ none
  pub none_open : All (λ row. is_open row ≡ false) s.execs
  pub rows :
      (id : String)
      → find_row id s.execs
        ≡ Option.map (λ row. if is_open row then orphan now row else row) (find_row id before)

asked-recheck :
    (fault : Bool) (checks : String → Check) (now : Time) (m n : Manager)
    → recheck fault checks now m ≡ some n
    → recheck false checks now m ≡ some n
unfolding recheck
asked-recheck true checks now m n h = cc
asked-recheck false checks now m n h = h

pub recheck-IsRechecked :
    (w : World) (c : Client) (fault : Bool) (before : List SandboxRow) (m : Manager)
    → recheck fault (check_of w c) w.checked_at (new_manager before) ≡ some m
    → IsRechecked w c before m
recheck-IsRechecked w c fault before m h =
    let asked = asked-recheck fault (check_of w c) w.checked_at (new_manager before) m h in
    record {
      rows = λ id row found runs.
          recheck-running (check_of w c) w.checked_at (new_manager before) m id row asked found
            runs;
      agents = λ id ac held.
          recheck-IsAttached (check_of w c) w.checked_at (new_manager before) m id ac refl asked
            held;
    }

asked-reconcile :
    (fault : Bool) (now : Time) (before after : List ExecRow)
    → reconcile fault now before ≡ some after
    → reconcile false now before ≡ some after
unfolding reconcile
asked-reconcile true now before after h = cc
asked-reconcile false now before after h = h

pub reconcile-IsClosed :
    (fault : Bool) (now : Time) (before : List ExecRow) (rows : List ExecRow) (w : World)
    → reconcile fault now before ≡ some rows
    → IsClosed now before (new_registry w.heap rows)
reconcile-IsClosed fault now before rows w h =
    let asked = asked-reconcile fault now before rows h in
    record {
      indexed = empty-IsIndexed w.heap rows;
      none_held = λ id. unfold Dict.get in refl;
      none_open = (reconcile-closes now before rows "" asked).0;
      rows = λ id. (reconcile-closes now before rows id asked).1;
    }
