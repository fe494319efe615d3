-- ===== src/Controller/Events.antt =====
-- The event handlers of controller/lb_controller.go.
pub mod Forbidden
use loadbalancer_controller.Common.{Bool, ◌&&◌, ◌==◌}
use loadbalancer_controller.Common.{string_eq, if◌then◌else◌}
use loadbalancer_controller.Common.Effects.{Reply, reply, failed, Exec, pure, crash, call, ignore}
use loadbalancer_controller.Common.GoMap.{deep_equal}
use loadbalancer_controller.Api.{
  LoadBalancer, LoadBalancerSpec, Resources, ProxySpec, load_balancer_type_internal,
  load_balancer_type_external, nodes_spec_eq, providers_spec_eq,
}
use loadbalancer_controller.Cluster.{
  Cluster, Library, Call, Obj, load_balancer, tombstone, update_lb, lb_queue,
}
use loadbalancer_controller.Common.{Option, none, some}
use loadbalancer_controller.Controller.Clone.{clone}
use loadbalancer_controller.Helper.{
  Helper, new_helper_for_key_func, passthrough_key_func, enqueue, enqueue_after,
}

-- The controller's helper.
abbrev pub lb_helper : Helper
lb_helper = new_helper_for_key_func lb_queue passthrough_key_func

resources_equal : Resources → Resources → Bool
resources_equal a b = deep_equal a.limits b.limits && deep_equal a.requests b.requests

proxy_equal : ProxySpec → ProxySpec → Bool
unfolding resources_equal
proxy_equal a b =
    a.kind == b.kind && deep_equal a.config b.config && resources_equal a.resources b.resources

-- `reflect.DeepEqual` on specifications
unfoldable pub spec_equal : LoadBalancerSpec → LoadBalancerSpec → Bool
unfolding proxy_equal
spec_equal a b =
    a.kind == b.kind
    && a.nodes == b.nodes
    && proxy_equal a.proxy b.proxy
    && a.providers == b.providers

-- The type is changed from internal to external.
abbrev pub is_forbidden : LoadBalancer → LoadBalancer → Bool
is_forbidden old cur =
    old.spec.kind == load_balancer_type_internal && cur.spec.kind == load_balancer_type_external

-- The current load balancer, with the type of the old one.
abbrev pub reverted : LoadBalancer → LoadBalancer → LoadBalancer
reverted old cur = record cur { spec = record (cur.spec) { kind = old.spec.kind } }

module _ (C : Cluster) (L : Library) where
  -- `addLoadBalancer`
  unfoldable pub add_load_balancer : Obj → Exec Call (Unit {0})
  add_load_balancer (load_balancer lb) = enqueue C lb_helper (load_balancer lb)
  add_load_balancer o = crash

  -- The update that takes the type back; its error is only logged.
  unfoldable pub revert :
      LoadBalancer → LoadBalancer → Reply (Option LoadBalancer) → Exec Call (Unit {0})
  revert old cur (failed e) = pure tt
  revert old cur (reply none) = crash
  revert old cur (reply (some copy)) = ignore (
      call (update_lb cur.namespace (reverted old copy))
        (λ h. C.updated_lb h cur.namespace (reverted old copy)))

  -- `updateLoadBalancer` for two load balancers.
  unfoldable pub update_lb_pair : LoadBalancer → LoadBalancer → Exec Call (Unit {0})
  unfolding spec_equal revert
  update_lb_pair old cur =
      if old.resource_version == cur.resource_version
      then pure tt
      else if spec_equal old.spec cur.spec
      then pure tt
      else if is_forbidden old cur
      then revert old cur (clone L cur)
      else enqueue_after C lb_helper (load_balancer cur) "1s"

  -- `updateLoadBalancer`
  unfoldable pub update_load_balancer : Obj → Obj → Exec Call (Unit {0})
  unfolding update_lb_pair
  update_load_balancer (load_balancer old) (load_balancer cur) = update_lb_pair old cur
  update_load_balancer o o' = crash

  -- `deleteLoadBalancer`
  unfoldable pub delete_load_balancer : Obj → Exec Call (Unit {0})
  delete_load_balancer (load_balancer lb) = enqueue C lb_helper (load_balancer lb)
  delete_load_balancer (tombstone (load_balancer lb)) = enqueue C lb_helper (load_balancer lb)
  delete_load_balancer o = pure tt
