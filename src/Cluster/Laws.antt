-- ===== src/Cluster/Laws.antt =====
-- What the client relies on of the API server of Kubernetes.
use microvm_agentic_sandbox.Prelude.{
  ◌≡◌, String, Bool, true, false, Option, none, some, ◌&&◌, str_eq, if◌then◌else◌,
}
use microvm_agentic_sandbox.Cluster.{
  PodSpec, LivePod, KubeError, not_found, no_answer, other_error, answered, refused, PodsApi,
  Client,
}

-- No pod, or one that is going away.
pub data IsDead : Option LivePod → Type 0 where
  missing : IsDead none
  leaving : (p : LivePod) → p.deleting ≡ true → IsDead (some p)

-- The request may have been carried out.
abbrev pub is_unsettled : KubeError → Bool
is_unsettled no_answer = true
is_unsettled not_found = false
is_unsettled other_error = false

-- A name is free when a pod is created under it, and a pod keeps what was asked for; a pod that has been
-- deleted is gone or marked; a call touches one name; a creation that
-- the server refuses makes no pod; `Get` reads what is stored.
pub record IsLawful (api : PodsApi) : Type 0 where
  pub name_free :
      (ns : String) (spec : PodSpec) (k : api.State) (p : LivePod)
      → (api.create ns spec k).0 ≡ answered p
      → api.stored k ns spec.name ≡ none
  pub spec_kept :
      (ns : String) (spec : PodSpec) (k : api.State) (p : LivePod)
      → (api.create ns spec k).0 ≡ answered p
      → p.spec ≡ spec
  pub stored-create :
      (ns : String) (spec : PodSpec) (k : api.State) (p : LivePod) (ns' name : String)
      → (api.create ns spec k).0 ≡ answered p
      → api.stored (api.create ns spec k).1 ns' name
        ≡ (if str_eq ns ns' && str_eq spec.name name then some p else api.stored k ns' name)
  pub refused_create :
      (ns : String) (spec : PodSpec) (k : api.State) (e : KubeError) (ns' name : String)
      → (api.create ns spec k).0 ≡ refused e
      → (is_unsettled e && (str_eq ns ns' && str_eq spec.name name)) ≡ false
      → IsDead (api.stored k ns' name)
      → IsDead (api.stored (api.create ns spec k).1 ns' name)
  pub deleted-IsDead :
      (ns name : String) (k : api.State)
      → (api.delete ns name k).0 ≡ answered tt
      → IsDead (api.stored (api.delete ns name k).1 ns name)
  pub missing-IsDead :
      (ns name : String) (k : api.State)
      → (api.delete ns name k).0 ≡ refused not_found
      → IsDead (api.stored (api.delete ns name k).1 ns name)
  pub delete_elsewhere :
      (ns name : String) (k : api.State) (ns' name' : String)
      → IsDead (api.stored k ns' name')
      → IsDead (api.stored (api.delete ns name k).1 ns' name')
  pub stored-get :
      (ns name : String) (k : api.State) (p : LivePod)
      → api.get ns name k ≡ answered p
      → api.stored k ns name ≡ some p

-- No live pod of the sandbox.
abbrev pub HasNone : (c : Client) → String → c.api.State → Type 0
HasNone c name k = IsDead (c.api.stored k c.namespace name)
