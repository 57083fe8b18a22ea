-- ===== src/Cluster/Replies.antt =====
-- adapter/internal/sandbox/manager.go: how the manager reads what `k8s.Client` returns.
use microvm_agentic_sandbox.Prelude.{String, Option, some, none, List, map}
use microvm_agentic_sandbox.Sandbox.Manager.{
  Pod, PodReply, pod_missing, pod_unknown, pod_found, DeleteReply, pod_went, pod_was_gone,
  pod_stays,
}
use microvm_agentic_sandbox.Cluster.{
  LivePod, KubeReply, not_found, no_answer, other_error, answered, refused, Client, get_sandbox_pod,
}

-- `pod, err := m.k8s.CreateSandboxPod(…)`
unfoldable pub created_pod : KubeReply LivePod → Option Pod
created_pod (answered p) = some (record { name = p.spec.name; namespace = p.spec.namespace })
created_pod (refused e) = none

-- `pod, err := m.k8s.GetSandboxPod(…)`, with the test `IsNotFound`
unfoldable pub seen_pod : KubeReply LivePod → PodReply
seen_pod (answered p) = pod_found p.phase p.pod_ip
seen_pod (refused not_found) = pod_missing
seen_pod (refused no_answer) = pod_unknown
seen_pod (refused other_error) = pod_unknown

-- the polls of `waitForPodReady`, each in the state that the cluster is then in
unfoldable pub seen_pods : (c : Client) → String → List c.api.State → List PodReply
seen_pods c sandbox_id = map (λ k. seen_pod (get_sandbox_pod c sandbox_id k))

-- `err := m.k8s.DeleteSandboxPod(…)`, with the test `IsNotFound`
unfoldable pub deleted_pod : KubeReply (Unit {0}) → DeleteReply
deleted_pod (answered _) = pod_went
deleted_pod (refused not_found) = pod_was_gone
deleted_pod (refused no_answer) = pod_stays
deleted_pod (refused other_error) = pod_stays
