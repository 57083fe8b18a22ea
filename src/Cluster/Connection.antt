-- ===== src/Cluster/Connection.antt =====
-- adapter/internal/k8s/client.go: `New`, over the parts of client-go that it calls.
use microvm_agentic_sandbox.Prelude.{String, Option, none, some, str_eq, if◌then◌else◌}
use microvm_agentic_sandbox.Cluster.{PodsApi, Client}

-- `rest.InClusterConfig`, `clientcmd.BuildConfigFromFlags` and `kubernetes.NewForConfig`.
pub record KubeConfigs : Type 1 where
  pub Config : Type 0
  pub in_cluster : Option Config
  pub build_from : String → Option Config
  pub for_config : Config → Option PodsApi

pub data KubeResult : Type 1 where
  connected : Client → KubeResult
  load_failed build_failed : KubeResult

-- the kubeconfig, by the environment variable KUBECONFIG
abbrev pub kubeconfig_path : String → String
kubeconfig_path env = if str_eq env "" then "/etc/rancher/k3s/k3s.yaml" else env

unfoldable pub load_config : (kube : KubeConfigs) → String → Option kube.Config
load_config kube env = elim kube.in_cluster [
  | some cfg ↦ some cfg
  | none ↦ kube.build_from (kubeconfig_path env)
]

with_clientset : String → Option PodsApi → KubeResult
with_clientset namespace none = build_failed
with_clientset namespace (some api) = connected (record { api = api; namespace = namespace })

with_config : (kube : KubeConfigs) → String → Option kube.Config → KubeResult
with_config kube namespace none = load_failed
with_config kube namespace (some cfg) = with_clientset namespace (kube.for_config cfg)

-- `New`; `env` is the environment variable KUBECONFIG.
unfoldable pub new_client : KubeConfigs → String → String → KubeResult
unfolding with_config with_clientset load_config
new_client kube env namespace = with_config kube namespace (load_config kube env)
