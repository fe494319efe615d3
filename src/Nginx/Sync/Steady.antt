-- ===== src/Nginx/Sync/Steady.antt =====
-- syncLoadBalancer of proxy/proxies/nginx/nginx.go for a load balancer that is as an earlier sync has
-- left it.
use loadbalancer_controller.Common.{
  ℕ, String, Bool, true, none, some, List, [], ◌∷◌, ◌≡◌, refl, length, map, ◌==◌, string_eq,
}
use loadbalancer_controller.Common.Effects.{reply, ok}
use loadbalancer_controller.Common.GoMap.{deep_equal}
use loadbalancer_controller.Api.{LoadBalancer, Deployment, ConfigMap, Pod, PodStatus}
use loadbalancer_controller.Cluster.{
  Cluster, Library, Routines, HasAggregate, HasDeepCopy, Call, load_balancer, get_config_map,
}
use loadbalancer_controller.LbUtil.{compute_pod_status, calculate_replicas}
use loadbalancer_controller.LbUtil.Copies.{as_load_balancer-deep_copy}
use loadbalancer_controller.LbUtil.Statuses.Order.{HasDistinctNames}
use loadbalancer_controller.Validation.{validate_load_balancer}
use loadbalancer_controller.Listers.{get_lb_cached}
use loadbalancer_controller.RefManager.Claims.{is_held}
use loadbalancer_controller.Workload.{manager}
use loadbalancer_controller.Workload.Held.{get_deployments_for_load_balancer-held}
use loadbalancer_controller.Workload.Loop.{create_if_missing}
use loadbalancer_controller.Workload.Totals.{totals, count_ready, evictions}
use loadbalancer_controller.Nginx.Selector.{Nginx, selector}
use loadbalancer_controller.Nginx.ConfigMaps.{
  default_config, merge, config_map_name, tcp_config_map_name, udp_config_map_name,
  ensure_config_maps,
}
use loadbalancer_controller.Nginx.Generate.{generate_deployment}
use loadbalancer_controller.Nginx.Status.{proxy_status}
use loadbalancer_controller.Nginx.Status.Settled.{sync_status-again}
use loadbalancer_controller.Nginx.Sync.{finish, sync, sync_load_balancer}
use loadbalancer_controller.Workload.Stored.{stored}
use loadbalancer_controller.Nginx.Sync.Generated.{sync_loop-generated}
use mathlib.Core.List.{Perm}

-- The three config maps are there, and the first holds the merged configuration.
pub record HasConfigMaps (C : Cluster) (lb : LoadBalancer) : Type 0 where
  pub config : ConfigMap
  pub tcp : ConfigMap
  pub udp : ConfigMap
  pub config_there :
      (h : List Call) → C.live_config_map h lb.namespace (config_map_name lb.name) ≡ reply config
  pub config_merged :
      deep_equal config.contents (merge (some default_config) lb.spec.proxy.config) ≡ true
  pub tcp_there :
      (h : List Call) → C.live_config_map h lb.namespace (tcp_config_map_name lb.name) ≡ reply tcp
  pub udp_there :
      (h : List Call) → C.live_config_map h lb.namespace (udp_config_map_name lb.name) ≡ reply udp

-- The status is that of the deployment and of these pods, in any order.
pub record HasStatus (C : Cluster) (lb : LoadBalancer) (active : Deployment) (pods : List Pod)
    : Type 0 where
  pub earlier : List PodStatus
  pub pods_listed : (h : List Call) → C.cached_pods h (selector lb) ≡ reply pods
  pub distinct_before : HasDistinctNames earlier
  pub distinct_now : HasDistinctNames (map compute_pod_status pods)
  pub same_pods : Perm earlier (map compute_pod_status pods)
  pub written :
      lb.status.proxy_status
      ≡ proxy_status lb active
          (totals (calculate_replicas lb).0 (length pods) (count_ready pods) earlier)

-- The requests for the config maps.
abbrev pub config_reads : LoadBalancer → List Call → List Call
config_reads lb h =
    get_config_map lb.namespace (udp_config_map_name lb.name)
    ∷ get_config_map lb.namespace (tcp_config_map_name lb.name)
    ∷ get_config_map lb.namespace (config_map_name lb.name)
    ∷ h

module _ (C : Cluster) (lb : LoadBalancer) (M : HasConfigMaps C lb) where
  ensure_config_maps-there :
      (h : List Call) → ensure_config_maps C lb h ≡ (ok tt, config_reads lb h)
  unfolding ensure_config_maps merge
  ensure_config_maps-there h = rw (M.config_there, M.config_merged, M.tcp_there, M.udp_there) refl

module _ (C : Cluster) (L : Library) (A : HasAggregate L) (D : HasDeepCopy L) (R : Routines)
    (is_ip : String → Bool) (f : Nginx) (keys : List String) where
  module _ (lb : LoadBalancer) (r : ℕ → ℕ) (namespace uid resource_version : String)
      (pods : List Pod) (M : HasConfigMaps C lb)
      (S : HasStatus C lb
        (stored namespace uid resource_version (generate_deployment f r keys lb))
        pods) where
    abbrev pub kept : Deployment
    kept = stored namespace uid resource_version (generate_deployment f r keys lb)

    kept-replicas : kept.replicas ≡ some (calculate_replicas lb).0
    unfolding generate_deployment
    kept-replicas = refl

    finish-steady :
        (desired : Deployment) (h : List Call)
        → finish C L R is_ip f keys lb desired (true, kept) h
          ≡ (ok tt, evictions lb pods (config_reads lb h))
    unfolding finish create_if_missing
    finish-steady desired h =
        rw
          (
            ensure_config_maps-there C lb M h,
            sync_status-again C R lb kept pods S.earlier (calculate_replicas lb).0
                (config_reads lb h) kept-replicas (S.pods_listed _) S.distinct_before S.distinct_now
                S.same_pods S.written,
          )
          refl

    sync-steady :
        (h : List Call)
        → sync C L R is_ip f keys lb (kept ∷ []) h ≡ (ok tt, evictions lb pods (config_reads lb h))
    unfolding sync
    sync-steady h =
        rw (sync_loop-generated L D f keys lb C r (C.int63 h) namespace uid resource_version _ h)
          (finish-steady (generate_deployment f (C.int63 h) keys lb) h)

    -- A sync of a valid load balancer that the lister has, not being deleted, whose one deployment is
    -- what an earlier sync has generated for it, held by it and matched by the selector, whose
    -- config maps are there with the merged configuration, and whose status is that of its pods,
    -- writes nothing: it makes no call but the three that read the config maps and the deletions of
    -- the misplaced pods.
    pub sync_load_balancer-steady :
        (item : LoadBalancer) (h : List Call)
        → validate_load_balancer is_ip item ≡ none
        → get_lb_cached C L h item.namespace item.name ≡ reply lb
        → (item.uid == lb.uid) ≡ true
        → lb.deletion_timestamp ≡ none
        → C.cached_deployments h lb.namespace (selector lb) ≡ reply (kept ∷ [])
        → is_held L (manager C L R lb (selector lb)) (λ (d : Deployment). d.meta) kept ≡ true
        → sync_load_balancer C L R is_ip f keys (load_balancer item) h
          ≡ (ok tt, evictions lb pods (config_reads lb h))
    unfolding sync_load_balancer
    sync_load_balancer-steady item h valid found same alive listed held =
        rw
          (
            valid,
            found,
            same,
            as_load_balancer-deep_copy L D lb,
            get_deployments_for_load_balancer-held C L A R lb (selector lb) kept h listed held,
            alive,
          )
          (sync-steady h)
