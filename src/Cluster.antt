-- ===== src/Cluster.antt =====
-- What the controller calls and does not implement: the API server and the informers' caches
-- behind the listers, the work queues, and the vendored Kubernetes helpers.
mod Calls
mod Vendored
pub use Calls.*
pub use Vendored.*
use loadbalancer_controller.Common.{ℕ, String, Bool, List, ◌∷◌, Option, if◌then◌else◌}
use loadbalancer_controller.Common.GoMap.{GoMap}
use loadbalancer_controller.Common.Effects.{Reply, ok, blocked, Exec}
use loadbalancer_controller.Api.{LoadBalancer, Node, Deployment, Pod, ConfigMap, Ingress}

-- The answers. Each may depend on all calls made before, and nothing else is assumed of it.
pub record Cluster : Type 0 where
  -- the listers' caches
  pub indexed_lb : List Call → String → Reply (Option LoadBalancer)
  pub cached_lbs : List Call → String → Reply (List LoadBalancer)
  pub cached_node : List Call → String → Reply Node
  pub cached_nodes : List Call → GoMap → Reply (List Node)
  pub cached_deployments : List Call → String → GoMap → Reply (List Deployment)
  pub cached_pods : List Call → GoMap → Reply (List Pod)
  -- the API server
  pub live_lb : List Call → String → String → Reply LoadBalancer
  pub updated_lb : List Call → String → LoadBalancer → Reply LoadBalancer
  pub live_config_map : List Call → String → String → Reply ConfigMap
  pub live_ingresses : List Call → GoMap → Reply (List Ingress)
  pub accepted : List Call → Call → Reply Unit
  -- the queues
  pub shutting_down : List Call → Queue → Bool
  pub num_requeues : List Call → Queue → Obj → ℕ
  -- `rand.Int63` at its n-th use in a function, and `rand.Intn(254)`
  pub int63 : List Call → ℕ → ℕ
  pub intn_254 : List Call → ℕ

-- `<-stopCh`, for a channel that is closed at some time, or that never is.
abbrev pub await : Bool → Exec Call (Unit {0})
await stops h = (if stops then ok tt else blocked, await_stop ∷ h)
