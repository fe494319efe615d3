-- ===== src/Nginx/Status/Settled.antt =====
-- A second run of syncStatus of proxy/proxies/nginx/status.go.
use mathlib.Core.List.{Perm}
use text.Mathlib.TextPositions.{eq_refl}
use loadbalancer_controller.Common.{ℕ, ◌≡◌, refl, some, List, map, length}
use loadbalancer_controller.Common.Effects.{ok, reply}
use loadbalancer_controller.Api.{LoadBalancer, Deployment, Pod, PodStatus, created_by}
use loadbalancer_controller.Nginx.ConfigMaps.{
  config_map_name, tcp_config_map_name, udp_config_map_name,
}
use loadbalancer_controller.Cluster.{Cluster, Routines, Call}
use loadbalancer_controller.LbUtil.{compute_pod_status}
use loadbalancer_controller.LbUtil.Statuses.{proxy_status_equal}
use loadbalancer_controller.LbUtil.Statuses.Order.{HasDistinctNames}
use loadbalancer_controller.Workload.Settled.{sorted-equal}
use loadbalancer_controller.Workload.Totals.{totals, count_ready, evictions, status_loop_lem}
use loadbalancer_controller.Nginx.Selector.{selector}
use loadbalancer_controller.Nginx.Status.{proxy_status, write_status, sync_status}

module _ (C : Cluster) (R : Routines) where
  -- If the status of the load balancer is the one that an earlier sync has computed for the same pods
  -- in any order, the pods' names being distinct, the sync writes no status. It makes no call but the
  -- deletions of the misplaced pods.
  pub sync_status-again :
      (lb : LoadBalancer) (active : Deployment) (pods : List Pod) (earlier : List PodStatus) (n : ℕ)
      (h : List Call)
      → active.replicas ≡ some n
      → C.cached_pods h (selector lb) ≡ reply pods
      → HasDistinctNames earlier
      → HasDistinctNames (map compute_pod_status pods)
      → Perm earlier (map compute_pod_status pods)
      → lb.status.proxy_status
        ≡ proxy_status lb active (totals n (length pods) (count_ready pods) earlier)
      → sync_status C R lb active h ≡ (ok tt, evictions lb pods h)
  unfolding sync_status write_status proxy_status_equal
  sync_status-again lb active pods earlier n h en ep de dp p es =
      rw
        (
          en,
          ep,
          status_loop_lem C lb pods n h,
          es,
          sorted-equal n (length pods) (count_ready pods) earlier (map compute_pod_status pods) de
              dp p,
          eq_refl active.name,
          eq_refl (created_by lb.namespace lb.name),
          eq_refl (config_map_name lb.name),
          eq_refl (tcp_config_map_name lb.name),
          eq_refl (udp_config_map_name lb.name),
        )
        refl
