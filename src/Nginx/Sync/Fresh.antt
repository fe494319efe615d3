-- ===== src/Nginx/Sync/Fresh.antt =====
-- syncLoadBalancer of proxy/proxies/nginx/nginx.go for a load balancer that has nothing yet.
use loadbalancer_controller.Common.{
  String, Bool, true, false, none, some, List, [], ◌∷◌, ◌≡◌, refl, ◌==◌, string_eq,
}
use loadbalancer_controller.Common.Effects.{not_found, reply, failed, ok}
use loadbalancer_controller.Common.GoMap.{GoMap, deep_equal_refl}
use loadbalancer_controller.Api.{LoadBalancer, Deployment}
use loadbalancer_controller.Cluster.{
  Cluster, Library, Routines, HasAggregate, HasDeepCopy, Call, load_balancer, get_config_map,
  create_config_map, create_deployment,
}
use loadbalancer_controller.LbUtil.Copies.{as_load_balancer-deep_copy}
use loadbalancer_controller.Validation.{validate_load_balancer}
use loadbalancer_controller.Listers.{get_lb_cached}
use loadbalancer_controller.Workload.Held.{get_deployments_for_load_balancer-none}
use loadbalancer_controller.Workload.Loop.{sync_loop, create_if_missing}
use loadbalancer_controller.Nginx.Selector.{Nginx, selector}
use loadbalancer_controller.Nginx.ConfigMaps.{
  default_config, merge, config_map_name, tcp_config_map_name, udp_config_map_name,
  ensure_config_map, ensure_config_maps,
}
use loadbalancer_controller.Nginx.Generate.{generate_deployment}
use loadbalancer_controller.Nginx.Status.{sync_status}
use loadbalancer_controller.Nginx.Sync.{finish, sync, sync_load_balancer}

-- The config map of this name does not exist.
abbrev pub IsMissing : Cluster → String → String → Type 0
IsMissing C namespace name = (h : List Call) → C.live_config_map h namespace name ≡ failed not_found

-- A config map that is asked for and then created.
abbrev pub made : LoadBalancer → String → GoMap → List Call → List Call
made lb name contents h =
    create_config_map lb.namespace
      (record { name = name; labels = selector lb; contents = contents })
    ∷ get_config_map lb.namespace name
    ∷ h

-- The calls that make the deployment and the config maps.
abbrev pub creations : LoadBalancer → Deployment → List Call → List Call
creations lb desired h = made lb (udp_config_map_name lb.name) none (
    made lb (tcp_config_map_name lb.name) none (
      made lb (config_map_name lb.name) (merge (some default_config) lb.spec.proxy.config)
        (create_deployment lb.namespace desired ∷ h)))

module _ (C : Cluster) (lb : LoadBalancer)
    (accepts : (h : List Call) (c : Call) → C.accepted h c ≡ reply tt) where
  ensure_config_map-missing :
      (name : String) (contents : GoMap) (h : List Call)
      → IsMissing C lb.namespace name
      → ensure_config_map C lb.namespace name (selector lb) contents h
        ≡ (ok tt, made lb name contents h)
  unfolding ensure_config_map
  ensure_config_map-missing name none h missing = rw (missing, accepts) refl
  ensure_config_map-missing name (some m) h missing =
      rw (missing, accepts, deep_equal_refl (some m)) refl

  module _ (config : IsMissing C lb.namespace (config_map_name lb.name))
      (tcp : IsMissing C lb.namespace (tcp_config_map_name lb.name))
      (udp : IsMissing C lb.namespace (udp_config_map_name lb.name)) where
    module _ (L : Library) (A : HasAggregate L) (D : HasDeepCopy L) (R : Routines)
        (is_ip : String → Bool) (f : Nginx) (keys : List String) where
      finish-fresh :
          (desired : Deployment) (h : List Call)
          → finish C L R is_ip f keys lb desired (false, desired) h
            ≡ sync_status C R lb desired (creations lb desired h)
      unfolding finish create_if_missing ensure_config_maps
      finish-fresh desired h =
          rw
            (
              accepts,
              ensure_config_map-missing (config_map_name lb.name)
                  (merge (some default_config) lb.spec.proxy.config)
                  (create_deployment lb.namespace desired ∷ h) config,
              ensure_config_map-missing (tcp_config_map_name lb.name) none _ tcp,
              ensure_config_map-missing (udp_config_map_name lb.name) none _ udp,
            )
            refl

      -- The first sync of a valid load balancer that the lister has, not being deleted, for which no
      -- deployment is listed and none of its three config maps exists, where the API server accepts
      -- what is asked, creates the one generated deployment, and then each config map, the first
      -- with the merged configuration and the others without contents, and ends with the sync of
      -- the status for that deployment. It makes no other call but the ones that look for the
      -- config maps.
      pub sync_load_balancer-fresh :
          (item : LoadBalancer) (h : List Call)
          → validate_load_balancer is_ip item ≡ none
          → get_lb_cached C L h item.namespace item.name ≡ reply lb
          → (item.uid == lb.uid) ≡ true
          → lb.deletion_timestamp ≡ none
          → C.cached_deployments h lb.namespace (selector lb) ≡ reply []
          → sync_load_balancer C L R is_ip f keys (load_balancer item) h ≡ (
              let desired = generate_deployment f (C.int63 h) keys lb in
              sync_status C R lb desired (creations lb desired h))
      unfolding sync_load_balancer sync sync_loop
      sync_load_balancer-fresh item h valid found same alive listed =
          rw
            (
              valid,
              found,
              same,
              as_load_balancer-deep_copy L D lb,
              get_deployments_for_load_balancer-none C L A R lb (selector lb) h listed,
              alive,
            )
            (finish-fresh (generate_deployment f (C.int63 h) keys lb) h)
