-- ===== src/Sandbox/Manager/Newborn.antt =====
-- What the sandbox that `Create` returns is made of.
use microvm_agentic_sandbox.Prelude.{
  ℕ, ◌≡◌, refl, String, Bool, true, false, Option, none, some, List, Time,
}
use microvm_agentic_sandbox.Exec.Table.{EnvCodec}
use microvm_agentic_sandbox.Sandbox.Table.{Sandbox, CreateSpec, SandboxRow}
use microvm_agentic_sandbox.Sandbox.Manager.{
  Manager, Result, done_with, Pod, Answers, wait_for_pod_ready, new_sandbox, on_insert, on_marshal,
  on_ping, on_dial, on_ready, on_pod, create,
}

-- It is the new sandbox of the spec, with the pod, the address and the agent of the answers.
pub record IsNewborn (spec : CreateSpec) (answers : Answers) (now : Time) (sb : Sandbox)
    : Type 0 where
  pub pod : Pod
  pub ip : String
  pub ac : ℕ
  pub same_pod : answers.pod ≡ some pod
  pub same_ip : wait_for_pod_ready answers.polls ≡ some ip
  pub same_agent : answers.dial ≡ some ac
  pub made : new_sandbox spec pod ip ac now ≡ sb

module _ (codec : EnvCodec) (spec : CreateSpec) (answers : Answers) (now : Time) where
  abbrev Bears : Result Sandbox × Manager → Type 0
  Bears r = (sb : Sandbox) → r.0 ≡ done_with sb → IsNewborn spec answers now sb

  module _ (pod : Pod) (same_pod : answers.pod ≡ some pod) where
    module _ (ip : String) (same_ip : wait_for_pod_ready answers.polls ≡ some ip) where
      module _ (ac : ℕ) (same_agent : answers.dial ≡ some ac) where
        insert-Bears :
            (o : Option (List SandboxRow)) (m : Manager)
            → Bears (on_insert codec spec answers now pod ip ac o m)
        unfolding on_insert
        insert-Bears none m sb e = cc
        insert-Bears (some rows) m sb e = record {
          pod = pod;
          ip = ip;
          ac = ac;
          same_pod = same_pod;
          same_ip = same_ip;
          same_agent = same_agent;
          made = cc;
        }

        marshal-Bears :
            (tags environment : Option String) (m : Manager)
            → Bears (on_marshal codec spec answers now pod ip ac tags environment m)
        unfolding on_marshal
        marshal-Bears none environment m sb e = cc
        marshal-Bears (some tags) none m sb e = cc
        marshal-Bears (some tags) (some environment) m sb e = insert-Bears _ m sb e

        ping-Bears :
            (pong : Bool) (m : Manager) → Bears (on_ping codec spec answers now pod ip ac pong m)
        unfolding on_ping
        ping-Bears false m sb e = cc
        ping-Bears true m sb e = marshal-Bears _ _ m sb e

      dial-Bears :
          (o : Option ℕ) (m : Manager)
          → answers.dial ≡ o
          → Bears (on_dial codec spec answers now pod ip o m)
      unfolding on_dial
      dial-Bears none m h sb e = cc
      dial-Bears (some ac) m h sb e = ping-Bears ac h _ _ sb e

    ready-Bears :
        (o : Option String) (m : Manager)
        → wait_for_pod_ready answers.polls ≡ o
        → Bears (on_ready codec spec answers now pod o m)
    unfolding on_ready
    ready-Bears none m h sb e = cc
    ready-Bears (some ip) m h sb e = dial-Bears ip h _ _ refl sb e

  pod-Bears :
      (o : Option Pod) (m : Manager) → answers.pod ≡ o → Bears (on_pod codec spec answers now o m)
  unfolding on_pod
  pod-Bears none m h sb e = cc
  pod-Bears (some pod) m h sb e = ready-Bears pod h _ _ refl sb e

  pub create-IsNewborn :
      (m : Manager) (sb : Sandbox)
      → (create codec spec answers now m).0 ≡ done_with sb
      → IsNewborn spec answers now sb
  unfolding create
  create-IsNewborn m sb h = pod-Bears answers.pod m refl sb h
