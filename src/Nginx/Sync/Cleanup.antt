-- ===== src/Nginx/Sync/Cleanup.antt =====
-- cleanup, at the end of syncLoadBalancer of proxy/proxies/nginx/nginx.go.
use loadbalancer_controller.Common.{
  String, Bool, none, some, List, [], ◌∷◌, ◌≡◌, true, is_some, string_eq,
}
use loadbalancer_controller.Common.Effects.{not_found, reply, failed, ok}
use loadbalancer_controller.Common.GoMap.{GoMap}
use loadbalancer_controller.Api.{
  LoadBalancer, Deployment, Ingress, label_key_created_by, created_by,
}
use loadbalancer_controller.Cluster.{
  Cluster, Library, Routines, HasAggregate, Call, load_balancer, delete_deployment,
  delete_config_maps, list_ingresses, delete_ingress,
}
use loadbalancer_controller.Validation.{validate_load_balancer}
use loadbalancer_controller.Listers.{get_lb_cached}
use loadbalancer_controller.Workload.Cleanup.{
  made, for_each-accepted, held_by, get_deployments_for_load_balancer-deleting,
}
use loadbalancer_controller.Nginx.Selector.{Nginx, selector}
use loadbalancer_controller.Nginx.Sync.{cleanup, sync_load_balancer}

abbrev pub delete_of : Deployment → Call
delete_of d = delete_deployment d.namespace d.name 30 "Foreground"

abbrev pub delete_ingress_of : Ingress → Call
delete_ingress_of i = delete_ingress i.namespace i.name

-- The label of what the controller has made for a load balancer.
abbrev pub created : LoadBalancer → GoMap
created lb = some ((label_key_created_by, created_by lb.namespace lb.name) ∷ [])

module _ (C : Cluster) (L : Library) (A : HasAggregate L) (R : Routines) (is_ip : String → Bool)
    (f : Nginx) (keys : List String) where
  -- The calls before the ingresses are deleted.
  abbrev pub listed_after : LoadBalancer → List Deployment → List Call → List Call
  listed_after lb ds h =
      delete_config_maps lb.namespace (selector lb)
      ∷ made delete_of (held_by C L R lb (selector lb) ds) h

  -- For a valid load balancer that is being deleted and that the lister no longer finds, where the
  -- API server accepts what is asked, a sync deletes just the listed deployments that it controls
  -- and that the selector matches, then the config maps of the selector, and then each ingress
  -- that has the label of what was created for it, in the order of the lists. It makes no other
  -- call but the one that lists the ingresses.
  pub sync_load_balancer-cleanup :
      (lb : LoadBalancer) (ds : List Deployment) (is : List Ingress) (h : List Call)
      → validate_load_balancer is_ip lb ≡ none
      → is_some lb.deletion_timestamp ≡ true
      → get_lb_cached C L h lb.namespace lb.name ≡ failed not_found
      → C.cached_deployments h lb.namespace (selector lb) ≡ reply ds
      → ((h : List Call) (c : Call) → C.accepted h c ≡ reply tt)
      → C.live_ingresses (listed_after lb ds h) (created lb) ≡ reply is
      → sync_load_balancer C L R is_ip f keys (load_balancer lb) h
        ≡ (ok tt, made delete_ingress_of is (list_ingresses (created lb) ∷ listed_after lb ds h))
  unfolding sync_load_balancer cleanup
  sync_load_balancer-cleanup lb ds is h valid deleting gone listed accepts ingresses =
      rw
        (
          valid,
          gone,
          get_deployments_for_load_balancer-deleting C L A R lb (selector lb) ds h deleting listed,
          for_each-accepted C delete_of (λ h d. accepts h (delete_of d))
              (held_by C L R lb (selector lb) ds) h,
          accepts (made delete_of (held_by C L R lb (selector lb) ds) h)
              (delete_config_maps lb.namespace (selector lb)),
          ingresses,
        )
        (for_each-accepted C delete_ingress_of (λ h i. accepts h (delete_ingress_of i)) is _)
