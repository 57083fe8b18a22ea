-- ===== src/Cluster.antt =====
-- adapter/internal/k8s/client.go: `Client`, over the pods API of Kubernetes. The API server is not
-- modelled: `PodsApi` is the three calls that the client makes, over an unknown state.
pub mod Connection
pub mod Laws
pub mod Replies
pub mod Running
pub mod Runs
use Prim.Native.String
use microvm_agentic_sandbox.Prelude.{ℕ, String, Bool, Option, some, List, [], ◌∷◌}
use microvm_agentic_sandbox.Prelude.Dict.{Dict}

pub record ContainerPort : Type 0 where
  pub name : String
  pub container_port : ℕ

pub record ResourceRequirements : Type 0 where
  pub requests : Dict String
  pub limits : Dict String

pub record Container : Type 0 where
  pub name : String
  pub image : String
  pub image_pull_policy : String
  pub ports : List ContainerPort
  pub resources : ResourceRequirements

-- The fields of a `corev1.Pod` that the client fills.
pub record PodSpec : Type 0 where
  pub name : String
  pub namespace : String
  pub labels : Dict String
  pub runtime_class_name : Option String
  pub containers : List Container

-- A `*corev1.Pod` that the API server gives; `deleting` is a deletion timestamp.
pub record LivePod : Type 0 where
  pub spec : PodSpec
  pub phase : String
  pub pod_ip : String
  pub deleting : Bool

-- `no_answer` is an error that does not tell what became of the request: a timeout, a context that is
-- cancelled, a connection that breaks.
pub data KubeError : Type 0 where
  not_found no_answer other_error : KubeError

pub data KubeReply {ℓ} (A : Type ℓ) : Type ℓ where
  answered : A → KubeReply A
  refused : KubeError → KubeReply A

-- `cs.CoreV1().Pods(namespace)`, the namespace being the first argument of each call; `initial` is the
-- state when the clientset is made, and `stored` what the API server holds under a namespace and a name.
pub record PodsApi : Type 1 where
  pub State : Type 0
  pub initial : State
  pub stored : State → String → String → Option LivePod
  pub create : String → PodSpec → State → KubeReply LivePod × State
  pub delete : String → String → State → KubeReply (Unit {0}) × State
  pub get : String → String → State → KubeReply LivePod

-- the name of the pod of a sandbox
abbrev pub pod_name_of : String → String
pod_name_of sandbox_id = String.◌++◌ "sandbox-" sandbox_id

-- The pod that `CreateSandboxPod` asks for.
unfoldable pub sandbox_pod : String → String → String → PodSpec
sandbox_pod namespace sandbox_id image = record {
  name = pod_name_of sandbox_id;
  namespace = namespace;
  labels = ("sandbox-oss/managed", "true") ∷ ("sandbox-oss/sandbox-id", sandbox_id) ∷ [];
  runtime_class_name = some "kata-clh";
  containers =
      record {
        name = "agent";
        image = image;
        image_pull_policy = "Never";
        ports = record { name = "agent"; container_port = 50051 } ∷ [];
        resources = record {
          requests = ("cpu", "1") ∷ ("memory", "512Mi") ∷ [];
          limits = ("cpu", "2") ∷ ("memory", "1Gi") ∷ [];
        };
      }
      ∷ [];
}

-- `Client`: the clientset and the namespace.
pub record Client : Type 1 where
  pub api : PodsApi
  pub namespace : String

unfoldable pub create_sandbox_pod :
    (c : Client) → String → String → c.api.State → KubeReply LivePod × c.api.State
create_sandbox_pod c sandbox_id image k =
    c.api.create c.namespace (sandbox_pod c.namespace sandbox_id image) k

unfoldable pub delete_sandbox_pod :
    (c : Client) → String → c.api.State → KubeReply (Unit {0}) × c.api.State
delete_sandbox_pod c sandbox_id k = c.api.delete c.namespace (pod_name_of sandbox_id) k

unfoldable pub get_sandbox_pod : (c : Client) → String → c.api.State → KubeReply LivePod
get_sandbox_pod c sandbox_id k = c.api.get c.namespace (pod_name_of sandbox_id) k
