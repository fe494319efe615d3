-- ===== src/Ipvsdr/Cleanup.antt =====
-- cleanup, at the end of syncLoadBalancer of provider/providers/ipvsdr/ipvsdr.go.
use loadbalancer_controller.Common.{String, Bool, none, List, ◌≡◌, true, is_some, string_eq}
use loadbalancer_controller.Common.Effects.{not_found, reply, failed, ok}
use loadbalancer_controller.Api.{LoadBalancer, Deployment}
use loadbalancer_controller.Cluster.{
  Cluster, Library, Routines, HasAggregate, Call, load_balancer, delete_deployment,
}
use loadbalancer_controller.Validation.{validate_load_balancer}
use loadbalancer_controller.Listers.{get_lb_cached}
use loadbalancer_controller.Workload.Cleanup.{
  made, for_each-ignore, held_by, get_deployments_for_load_balancer-deleting,
}
use loadbalancer_controller.Ipvsdr.Selector.{Ipvsdr, selector}
use loadbalancer_controller.Ipvsdr.Sync.{cleanup, sync_load_balancer}

module _ (C : Cluster) (L : Library) (A : HasAggregate L) (R : Routines) (is_ip : String → Bool)
    (f : Ipvsdr) (keys : List String) where
  -- For a valid load balancer that is being deleted and that the lister no longer finds, whatever
  -- the API server answers, a sync makes just one call for each listed deployment that the load
  -- balancer controls and that the selector matches, which deletes it, in the order of the list.
  pub sync_load_balancer-gone :
      (lb : LoadBalancer) (ds : List Deployment) (h : List Call)
      → validate_load_balancer is_ip lb ≡ none
      → is_some lb.deletion_timestamp ≡ true
      → get_lb_cached C L h lb.namespace lb.name ≡ failed not_found
      → C.cached_deployments h lb.namespace (selector lb) ≡ reply ds
      → sync_load_balancer C L R is_ip f keys (load_balancer lb) h ≡ (
        ok tt,
        made
            (λ (d : Deployment). delete_deployment d.namespace d.name 30 "Foreground")
            (held_by C L R lb (selector lb) ds)
            h,
      )
  unfolding sync_load_balancer cleanup
  sync_load_balancer-gone lb ds h valid deleting gone listed =
      rw
        (
          valid,
          gone,
          get_deployments_for_load_balancer-deleting C L A R lb (selector lb) ds h deleting listed,
        )
        (for_each-ignore C
          (λ (d : Deployment). delete_deployment d.namespace d.name 30 "Foreground")
          (held_by C L R lb (selector lb) ds) h)
