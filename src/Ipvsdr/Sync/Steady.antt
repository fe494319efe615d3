-- ===== src/Ipvsdr/Sync/Steady.antt =====
-- syncLoadBalancer of provider/providers/ipvsdr/ipvsdr.go for a load balancer that is as an earlier
-- sync has left it.
use loadbalancer_controller.Common.{
  ℕ, String, Bool, true, none, some, List, [], ◌∷◌, ◌≡◌, refl, length, map, ◌==◌, string_eq,
}
use loadbalancer_controller.Common.Effects.{reply, ok}
use loadbalancer_controller.Api.{
  LoadBalancer, Deployment, IpvsdrProvider, Pod, PodStatus, at, vrid_eq,
}
use loadbalancer_controller.Cluster.{
  Cluster, Library, Routines, HasAggregate, HasDeepCopy, Call, load_balancer,
}
use loadbalancer_controller.LbUtil.{compute_pod_status, calculate_replicas}
use loadbalancer_controller.LbUtil.Statuses.{ipvsdr_provider_status_equal}
use loadbalancer_controller.LbUtil.Statuses.Order.{HasDistinctNames}
use loadbalancer_controller.Validation.{validate_load_balancer}
use loadbalancer_controller.Listers.{get_lb_cached}
use loadbalancer_controller.RefManager.Claims.{is_held}
use loadbalancer_controller.Workload.{manager}
use loadbalancer_controller.Workload.Held.{get_deployments_for_load_balancer-held}
use loadbalancer_controller.Workload.Loop.{create_if_missing}
use loadbalancer_controller.Workload.Settled.{sorted-equal}
use loadbalancer_controller.Workload.Stored.{stored}
use loadbalancer_controller.Workload.Totals.{totals, count_ready, evictions, status_loop_lem}
use loadbalancer_controller.Ipvsdr.Selector.{Ipvsdr, selector}
use loadbalancer_controller.Ipvsdr.Generate.{generate_deployment}
use loadbalancer_controller.Ipvsdr.Status.{provider_status, choose_vrid, write_status, sync_status}
use loadbalancer_controller.Ipvsdr.Sync.{finish, sync, sync_load_balancer}
use loadbalancer_controller.Ipvsdr.Sync.Generated.{sync_loop-settled}
use mathlib.Core.List.{Perm}

-- The status is that of the provider, of the deployment and of these pods, in any order, with some
-- valid router id.
pub record HasStatus (C : Cluster) (lb : LoadBalancer) (active : Deployment) (pods : List Pod)
    : Type 0 where
  pub provider : IpvsdrProvider
  pub vrid : ℕ
  pub earlier : List PodStatus
  pub named : lb.spec.providers.ipvsdr ≡ some provider
  pub pods_listed : (h : List Call) → C.cached_pods h (selector lb) ≡ reply pods
  pub distinct_before : HasDistinctNames earlier
  pub distinct_now : HasDistinctNames (map compute_pod_status pods)
  pub same_pods : Perm earlier (map compute_pod_status pods)
  pub written :
      lb.status.providers_statuses.ipvsdr
      ≡ some (
          provider_status provider active
            (at vrid)
            (totals (calculate_replicas lb).0 (length pods) (count_ready pods) earlier))

module _ (C : Cluster) (R : Routines) (lb : LoadBalancer) (active : Deployment) (pods : List Pod)
    (S : HasStatus C lb active pods)
    (replicas : active.replicas ≡ some (calculate_replicas lb).0) where
  -- A second sync of the status keeps the router id and writes nothing.
  pub sync_status-settled :
      (h : List Call) → sync_status C R lb active h ≡ (ok tt, evictions lb pods h)
  unfolding sync_status write_status ipvsdr_provider_status_equal choose_vrid calculate_replicas
  sync_status-settled h =
      rw
        (
          replicas,
          S.named,
          S.pods_listed h,
          status_loop_lem C lb pods (calculate_replicas lb).0 h,
          S.written,
          sorted-equal (calculate_replicas lb).0 (length pods) (count_ready pods) S.earlier
              (map compute_pod_status pods) S.distinct_before S.distinct_now S.same_pods,
          (string_eq.equals_iff active.name active.name).1 refl,
          (string_eq.equals_iff S.provider.vip S.provider.vip).1 refl,
          (vrid_eq.equals_iff (some (at S.vrid)) (some (at S.vrid))).1 refl,
        )
        refl

module _ (C : Cluster) (L : Library) (A : HasAggregate L) (D : HasDeepCopy L) (R : Routines)
    (is_ip : String → Bool) (f : Ipvsdr) (keys : List String) where
  module _ (lb : LoadBalancer) (r : ℕ → ℕ) (namespace uid resource_version : String)
      (pods : List Pod)
      (S : HasStatus C lb
        (stored namespace uid resource_version (generate_deployment f r keys lb))
        pods) where
    abbrev pub kept : Deployment
    kept = stored namespace uid resource_version (generate_deployment f r keys lb)

    kept-replicas : kept.replicas ≡ some (calculate_replicas lb).0
    unfolding generate_deployment
    kept-replicas = refl

    finish-steady :
        (desired : Deployment) (h : List Call)
        → finish C L R is_ip f keys lb desired (true, kept) h ≡ (ok tt, evictions lb pods h)
    unfolding finish create_if_missing
    finish-steady desired h = rw (sync_status-settled C R lb kept pods S kept-replicas h) refl

    sync-steady :
        (h : List Call) → sync C L R is_ip f keys lb (kept ∷ []) h ≡ (ok tt, evictions lb pods h)
    unfolding sync
    sync-steady h =
        rw (sync_loop-settled L D f keys lb C r (C.int63 h) namespace uid resource_version _ h)
          (finish-steady (generate_deployment f (C.int63 h) keys lb) h)

    -- A sync of a valid load balancer that the lister has, not being deleted, whose one deployment is
    -- what an earlier sync has generated for it, held by it and matched by the selector, and whose
    -- status is that of its provider and its pods with some valid router id, writes nothing and
    -- keeps the id, whatever is drawn: it makes no call but the deletions of the misplaced pods.
    pub sync_load_balancer-settled :
        (item : LoadBalancer) (h : List Call)
        → validate_load_balancer is_ip item ≡ none
        → get_lb_cached C L h item.namespace item.name ≡ reply lb
        → (item.uid == lb.uid) ≡ true
        → lb.deletion_timestamp ≡ none
        → C.cached_deployments h lb.namespace (selector lb) ≡ reply (kept ∷ [])
        → is_held L (manager C L R lb (selector lb)) (λ (d : Deployment). d.meta) kept ≡ true
        → sync_load_balancer C L R is_ip f keys (load_balancer item) h
          ≡ (ok tt, evictions lb pods h)
    unfolding sync_load_balancer
    sync_load_balancer-settled item h valid found same alive listed held =
        rw
          (
            valid,
            found,
            same,
            get_deployments_for_load_balancer-held C L A R lb (selector lb) kept h listed held,
            alive,
          )
          (sync-steady h)
