-- ===== src/Nginx/Status.antt =====
-- proxy/proxies/nginx/status.go
pub mod Settled
use loadbalancer_controller.Common.{ℕ}
use loadbalancer_controller.Common.{[], string_eq, nat_eq}
use loadbalancer_controller.Common.{if◌then◌else◌}
use loadbalancer_controller.Common.Effects.{reply}
use loadbalancer_controller.Common.Effects.{Exec, pure, lift, deref}
use loadbalancer_controller.Common.Effects.{◌>>=◌}
use loadbalancer_controller.Api.{LoadBalancer, Deployment, PodStatuses, ProxyStatus, created_by}
use loadbalancer_controller.Cluster.{Cluster, Routines, Call}
use loadbalancer_controller.LbUtil.{proxy_status_equal}
use loadbalancer_controller.LbUtil.Retry.{update_lb_with_retries}
use loadbalancer_controller.Workload.{status_loop}
use loadbalancer_controller.Workload.Sorting.{sort_statuses}
use loadbalancer_controller.Nginx.Selector.{selector}
use loadbalancer_controller.Nginx.ConfigMaps.{
  config_map_name, tcp_config_map_name, udp_config_map_name,
}

-- The counters before the loop.
abbrev pub no_pods : ℕ → PodStatuses
no_pods replicas = record {
  replicas = replicas;
  total_replicas = 0;
  ready_replicas = 0;
  statuses = [];
}

-- The status, from what the loop has found.
abbrev pub proxy_status : LoadBalancer → Deployment → PodStatuses → ProxyStatus
proxy_status lb active found = record {
  pod_statuses = record found { statuses = sort_statuses found.statuses };
  deployment = active.name;
  ingress_class = created_by lb.namespace lb.name;
  config_map = config_map_name lb.name;
  tcp_config_map = tcp_config_map_name lb.name;
  udp_config_map = udp_config_map_name lb.name;
}

-- What the retried update writes.
abbrev pub with_proxy_status : ProxyStatus → LoadBalancer → LoadBalancer
with_proxy_status s lb = record lb { status = record (lb.status) { proxy_status = s } }

module _ (C : Cluster) (R : Routines) where
  -- The status is written if it is not that of the load balancer.
  unfoldable pub write_status : LoadBalancer → ProxyStatus → Exec Call (Unit {0})
  unfolding update_lb_with_retries
  write_status lb s =
      if proxy_status_equal lb.status.proxy_status s
      then pure tt
      else update_lb_with_retries C R lb.namespace lb.name (λ l. reply (with_proxy_status s l))

  -- `syncStatus`
  unfoldable pub sync_status : LoadBalancer → Deployment → Exec Call (Unit {0})
  unfolding status_loop sort_statuses proxy_status_equal write_status
  sync_status lb active = deref active.replicas >>= λ replicas.
      (λ h. lift (C.cached_pods h (selector lb)) h) >>= λ pods.
      status_loop C lb pods (no_pods replicas) >>= λ found.
      write_status lb (proxy_status lb active found)
