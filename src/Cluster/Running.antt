-- ===== src/Cluster/Running.antt =====
-- The pod of a sandbox that `Create` returns.
use microvm_agentic_sandbox.Prelude.{
  ◌≡◌, refl, sym, ap, subst, ◌∙◌, String, true, false, str_eq, eq_iff, eq_refl, some, none, List,
  [], ◌∷◌, arith, Time, Bool-cases, inl, inr,
}
use microvm_agentic_sandbox.Exec.Table.{EnvCodec}
use microvm_agentic_sandbox.Sandbox.Table.{Sandbox, CreateSpec}
use microvm_agentic_sandbox.Sandbox.Manager.{
  Manager, Pod, is_ready, done_with, Answers, wait_for_pod_ready, new_sandbox, create,
}
use microvm_agentic_sandbox.Sandbox.Manager.Newborn.{IsNewborn, create-IsNewborn}
use microvm_agentic_sandbox.Cluster.{
  LivePod, KubeReply, not_found, no_answer, other_error, answered, refused, Client, pod_name_of,
  sandbox_pod, create_sandbox_pod, get_sandbox_pod,
}
use microvm_agentic_sandbox.Cluster.Laws.{IsLawful}
use microvm_agentic_sandbox.Cluster.Replies.{created_pod, seen_pod, seen_pods}

-- In one of the states, the pod of the sandbox runs at the address.
pub data RanAt (c : Client) (sandbox_id ip : String) : List c.api.State → Type 0 where
  then_so :
      (k : c.api.State) (ks : List c.api.State) (p : LivePod)
      → c.api.stored k c.namespace (pod_name_of sandbox_id) ≡ some p
      → p.phase ≡ "Running"
      → p.pod_ip ≡ ip
      → str_eq ip "" ≡ false
      → RanAt c sandbox_id ip (k ∷ ks)
  later_so :
      (k : c.api.State) (ks : List c.api.State)
      → RanAt c sandbox_id ip ks
      → RanAt c sandbox_id ip (k ∷ ks)

-- The sandbox stands for a pod that was made for it, as the spec asks, and that has run since.
pub record HasPod (c : Client) (spec : CreateSpec) (k : c.api.State) (ks : List c.api.State)
    (sb : Sandbox) : Type 0 where
  pub name : sb.pod_name ≡ pod_name_of spec.id
  pub namespace : sb.namespace ≡ c.namespace
  pub was_free : c.api.stored k c.namespace (pod_name_of spec.id) ≡ none
  pub pod : LivePod
  pub as_asked : pod.spec ≡ sandbox_pod c.namespace spec.id spec.image
  pub kept :
      c.api.stored (create_sandbox_pod c spec.id spec.image k).1 c.namespace (pod_name_of spec.id)
      ≡ some pod
  pub ran : RanAt c spec.id sb.pod_ip ks

is_ready-running :
    (phase ip : String) → is_ready phase ip ≡ true → (phase ≡ "Running") × (str_eq ip "" ≡ false)
is_ready-running phase ip h = ((eq_iff phase "Running").0 (ground arith), ground arith)

module _ (c : Client) (lawful : IsLawful c.api) (spec : CreateSpec) where
  poll-RanAt :
      (ip : String) (k : c.api.State) (ks : List c.api.State) (r : KubeReply LivePod)
      → (wait_for_pod_ready (seen_pods c spec.id ks) ≡ some ip → RanAt c spec.id ip ks)
      → get_sandbox_pod c spec.id k ≡ r
      → wait_for_pod_ready (seen_pod r ∷ seen_pods c spec.id ks) ≡ some ip
      → RanAt c spec.id ip (k ∷ ks)
  unfolding wait_for_pod_ready seen_pod
  poll-RanAt ip k ks (answered p) rest e h = elim (Bool-cases (is_ready p.phase p.pod_ip)) [
    | inl ready ↦
        let (runs, has_ip) = is_ready-running p.phase p.pod_ip ready in
        let same : p.pod_ip ≡ ip = ground (arith, ready) in
        then_so k ks p (unfold get_sandbox_pod in lawful.stored-get c.namespace _ k p e) runs same
          (rw (sym same) has_ip)
    | inr waits ↦ later_so k ks (rest (ground (arith, waits)))
  ]
  poll-RanAt ip k ks (refused not_found) rest e h = cc
  poll-RanAt ip k ks (refused no_answer) rest e h = cc
  poll-RanAt ip k ks (refused other_error) rest e h = cc

  seen-RanAt :
      (ip : String) (ks : List c.api.State)
      → wait_for_pod_ready (seen_pods c spec.id ks) ≡ some ip
      → RanAt c spec.id ip ks
  unfolding seen_pods
  seen-RanAt ip [] h = unfold wait_for_pod_ready in cc
  seen-RanAt ip (k ∷ ks) h = poll-RanAt ip k ks _ (seen-RanAt ip ks) refl h

  stored-created :
      (k : c.api.State) (p : LivePod)
      → (create_sandbox_pod c spec.id spec.image k).0 ≡ answered p
      → c.api.stored (create_sandbox_pod c spec.id spec.image k).1 c.namespace (pod_name_of spec.id)
        ≡ some p
  unfolding create_sandbox_pod sandbox_pod
  stored-created k p h =
      lawful.stored-create c.namespace (sandbox_pod c.namespace spec.id spec.image) k p c.namespace
        (pod_name_of spec.id) h
      ∙ rw (eq_refl c.namespace, eq_refl (pod_name_of spec.id)) refl

  created-HasPod :
      (answers : Answers) (now : Time) (k : c.api.State) (ks : List c.api.State) (sb : Sandbox)
      (r : KubeReply LivePod)
      → answers.polls ≡ seen_pods c spec.id ks
      → (create_sandbox_pod c spec.id spec.image k).0 ≡ r
      → answers.pod ≡ created_pod r
      → IsNewborn spec answers now sb
      → HasPod c spec k ks sb
  unfolding created_pod sandbox_pod
  created-HasPod answers now k ks sb (refused x) hp hk ha born =
      absurd_none (sym born.same_pod ∙ ha)
    where
      absurd_none : {q : Pod} → some q ≡ none → HasPod c spec k ks sb
      absurd_none h = cc
  created-HasPod answers now k ks sb (answered p) hp hk ha born = record {
    name = named ∙ ap (λ q. q.name) same_pod ∙ ap (λ q. q.name) spec_of_pod;
    namespace = spaced ∙ ap (λ q. q.namespace) same_pod ∙ ap (λ q. q.namespace) spec_of_pod;
    was_free = unfold sandbox_pod in lawful.name_free c.namespace _ k p asked;
    pod = p;
    as_asked = spec_of_pod;
    kept = stored-created k p hk;
    ran = unfold new_sandbox in (subst (λ x. RanAt c spec.id x.pod_ip ks) born.made found);
  }
    where
      asked :
          (c.api.create c.namespace (sandbox_pod c.namespace spec.id spec.image) k).0 ≡ answered p
      asked = unfold create_sandbox_pod in hk

      spec_of_pod : p.spec ≡ sandbox_pod c.namespace spec.id spec.image
      spec_of_pod = lawful.spec_kept c.namespace _ k p asked

      same_pod : born.pod ≡ record { name = p.spec.name; namespace = p.spec.namespace }
      same_pod =
          let same : some born.pod
              ≡ some (record { name = p.spec.name; namespace = p.spec.namespace }) =
            sym born.same_pod ∙ ha in
          cc

      named : sb.pod_name ≡ born.pod.name
      named = unfold new_sandbox in ap (λ x. x.pod_name) (sym born.made)

      spaced : sb.namespace ≡ born.pod.namespace
      spaced = unfold new_sandbox in ap (λ x. x.namespace) (sym born.made)

      found : RanAt c spec.id born.ip ks
      found = seen-RanAt born.ip ks (ap wait_for_pod_ready (sym hp) ∙ born.same_ip)

  -- For a lawful API server, a `Create` of the manager that is told what `CreateSandboxPod` answers in
  -- one state of the cluster, and what `GetSandboxPod` answers in later ones: a sandbox that it returns
  -- has the pod name "sandbox-" and its id, a name that was free, in the client's namespace; the pod
  -- is held under it, with the runtime class, the image, the labels and the resources that the
  -- client asks for; and in one of the later states a pod under that name was Running, at the address
  -- of the sandbox, which is not empty.
  pub create-HasPod :
      (codec : EnvCodec) (answers : Answers) (now : Time) (m : Manager) (sb : Sandbox)
      (k : c.api.State) (ks : List c.api.State)
      → answers.pod ≡ created_pod (create_sandbox_pod c spec.id spec.image k).0
      → answers.polls ≡ seen_pods c spec.id ks
      → (create codec spec answers now m).0 ≡ done_with sb
      → HasPod c spec k ks sb
  create-HasPod codec answers now m sb k ks ha hp h =
      created-HasPod answers now k ks sb _ hp refl ha
        (create-IsNewborn codec spec answers now m sb h)
