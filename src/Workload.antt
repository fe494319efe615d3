-- ===== src/Workload.antt =====
-- What the nginx proxy and the ipvsdr provider do in the same way: proxy/proxies/nginx/nginx.go and
-- status.go, and provider/providers/ipvsdr/ipvsdr.go and status.go.
pub mod Sorting
pub mod Totals
pub mod Loop
pub mod Claiming
pub mod Cleanup
pub mod Settled
pub mod Stored
pub mod Held
use loadbalancer_controller.Common.{
  ℕ, String, ◌<>◌, ◌+◌, Bool, true, false, not, ◌&&◌, ◌||◌, Option, none, some,
}
use loadbalancer_controller.Common.{
  List, [], ◌∷◌, ◌++◌, is_empty, is_some, items, any_of, ◌==◌, string_eq,
}
use loadbalancer_controller.Common.{if◌then◌else◌}
use loadbalancer_controller.Common.Effects.{
  Error, message, Reply, reply, failed, Exec, pure, fail, lift, call, ignore,
}
use loadbalancer_controller.Common.Effects.{◌>>=◌, ◌>>◌}
use loadbalancer_controller.Common.GoMap.{GoMap}
use loadbalancer_controller.Api.{
  ObjectMeta, LoadBalancer, Deployment, Pod, PodStatus, PodStatuses, int32, load_balancer_kind,
}
use loadbalancer_controller.Cluster.{Cluster, Library, Routines, Call, get_lb, delete_pod}
use loadbalancer_controller.LbUtil.{compute_pod_status}
use loadbalancer_controller.RefManager.{RefManager}
use loadbalancer_controller.RefManager.Objects.{new_ref_manager, claim_deployments}

-- `StringInSlice`
unfoldable pub string_in_slice : String → List String → Bool
string_in_slice a = any_of (λ b. b == a)

-- One pod of the loop of `syncStatus`, after its status is computed.
unfoldable pub add_status : PodStatus → PodStatuses → PodStatuses
add_status s t = record t {
  total_replicas = int32 (t.total_replicas + 1);
  ready_replicas = if s.ready then int32 (t.ready_replicas + 1) else t.ready_replicas;
  statuses = t.statuses ++ s ∷ [];
}

module _ (C : Cluster) where
  -- `evictPod`; the error of the deletion is dropped.
  unfoldable pub evict_pod : LoadBalancer → Pod → Exec Call (Unit {0})
  unfolding string_in_slice
  evict_pod lb p =
      if is_empty (items lb.spec.nodes.names)
      then pure tt
      else if not (string_in_slice p.node_name (items lb.spec.nodes.names))
          && not (is_some p.deletion_timestamp)
      then ignore
          (call (delete_pod p.namespace p.name) (λ h. C.accepted h (delete_pod p.namespace p.name)))
      else pure tt

  -- The loop of `syncStatus` over the pods.
  unfoldable pub status_loop : LoadBalancer → List Pod → PodStatuses → Exec Call PodStatuses
  unfolding evict_pod add_status
  status_loop lb [] t = pure t
  status_loop lb (p ∷ ps) t =
      evict_pod lb p >> status_loop lb ps (add_status (compute_pod_status p) t)

module _ (C : Cluster) (L : Library) (R : Routines) (lb : LoadBalancer) where
  same_lb : LoadBalancer → Exec Call ObjectMeta
  same_lb fresh =
      if fresh.uid == lb.uid
      then pure fresh.meta
      else fail (
          message (
            "original LoadBalancer " <> lb.namespace <> "/" <> lb.name <> " is gone: got uid "
            <> fresh.uid <> ", wanted " <> lb.uid))

  -- The function that the recheck calls: the live load balancer, if it is still the same.
  unfoldable pub fetch_fresh : Exec Call ObjectMeta
  unfolding same_lb
  fetch_fresh =
      call (get_lb lb.namespace lb.name) (λ h. C.live_lb h lb.namespace lb.name) >>= same_lb

  -- The manager that claims the deployments of the selector.
  abbrev pub manager : GoMap → RefManager
  manager selector =
      new_ref_manager lb.meta selector load_balancer_kind (R.recheck_deletion_timestamp fetch_fresh)

  no_error : List Deployment × Option Error → Exec Call (List Deployment)
  no_error (ds, none) = pure ds
  no_error (ds, some e) = fail e

  -- `getDeploymentsForLoadBalancer`, for the callers, which return an error at once.
  unfoldable pub get_deployments_for_load_balancer : GoMap → Exec Call (List Deployment)
  unfolding fetch_fresh no_error claim_deployments
  get_deployments_for_load_balancer selector h =
      (lift (C.cached_deployments h lb.namespace selector)
          >>= claim_deployments C L (manager selector)
          >>= no_error)
        h
