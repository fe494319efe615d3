-- ===== src/Cluster/Calls.antt =====
-- The calls that the controller makes.
use loadbalancer_controller.Common.{ℕ, String}
use loadbalancer_controller.Common.GoMap.{GoMap}
use loadbalancer_controller.Api.{LoadBalancer, Node, Deployment, Pod, ConfigMap}

-- The work queues: the controller's, the nginx proxy's and the ipvsdr provider's.
pub data Queue : Type 0 where
  lb_queue nginx_queue ipvsdr_queue : Queue

-- An `interface{}` that an informer or a queue hands over.
pub data Obj : Type 0 where
  load_balancer : LoadBalancer → Obj
  deployment : Deployment → Obj
  pod : Pod → Obj
  node : Node → Obj
  tombstone : Obj → Obj
  other : String → Obj

-- The two patches of a controller reference: the kind, name and uid of the controller, and the
-- uid of the object.
pub data OwnerPatch : Type 0 where
  add_controller : String → String → String → String → OwnerPatch
  delete_owner : String → String → OwnerPatch

pub data Call : Type 0 where
  create_deployment update_deployment : String → Deployment → Call
  -- with the grace period in seconds and the policy of propagation
  delete_deployment : String → String → ℕ → String → Call
  patch_deployment patch_daemon_set : String → String → OwnerPatch → Call
  get_lb : String → String → Call
  update_lb : String → LoadBalancer → Call
  -- the name, and the node before and after, from which the patch is computed
  patch_node : String → Node → Node → Call
  get_config_map : String → String → Call
  create_config_map update_config_map : String → ConfigMap → Call
  delete_config_maps : String → GoMap → Call
  list_ingresses : GoMap → Call
  delete_ingress delete_pod : String → String → Call
  create_service : String → String → Call
  create_resource : String → Call
  -- the queues; the last has its delay in seconds
  add add_rate_limited forget done : Queue → Obj → Call
  add_after : Queue → Obj → String → Call
  -- goroutines: the `Run` of an informer, by its type, and of a plugin, by its name, and a worker
  run_informer run_plugin : String → Call
  start_worker : Queue → Call
  -- the shutdown of a queue, with the wait for its workers, and `<-stopCh`
  shut_down : Queue → Call
  await_stop : Call
