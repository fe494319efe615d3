-- ===== src/LbUtil/Statuses.antt =====
-- The comparison of statuses of pkg/util/lb/lb.go.
pub mod Order
use loadbalancer_controller.Common.{
  ℕ, ◌≡◌, refl, String, Bool, true, false, not, ◌&&◌, List, [], ◌∷◌,
}
use loadbalancer_controller.Common.{length, ◌==◌, nat_eq, string_eq, if◌then◌else◌, arith}
use loadbalancer_controller.Api.{PodStatus, PodStatuses, ProxyStatus, IpvsdrProviderStatus}
use loadbalancer_controller.Api.{pod_status_eq, vrid_eq}

-- The inner loop: the first status of the same name decides.
unfoldable pub has_equal : PodStatus → List PodStatus → Bool
has_equal s [] = false
has_equal s (b ∷ bs) = let rest = has_equal s bs in if s.name == b.name then s == b else rest

-- The outer loop.
unfoldable pub all_have_equal : List PodStatus → List PodStatus → Bool
unfolding has_equal
all_have_equal [] bs = true
all_have_equal (a ∷ as') bs = has_equal a bs && all_have_equal as' bs

-- `PodStatusesEqual`
unfoldable pub pod_statuses_equal : PodStatuses → PodStatuses → Bool
unfolding all_have_equal
pod_statuses_equal a b =
    if length a.statuses == length b.statuses
    then if a.replicas == b.replicas
        && a.total_replicas == b.total_replicas
        && a.ready_replicas == b.ready_replicas
      then all_have_equal a.statuses b.statuses
      else false
    else false

-- `ProxyStatusEqual`
unfoldable pub proxy_status_equal : ProxyStatus → ProxyStatus → Bool
unfolding pod_statuses_equal
proxy_status_equal a b =
    if pod_statuses_equal a.pod_statuses b.pod_statuses
    then a.deployment == b.deployment
      && a.ingress_class == b.ingress_class
      && a.config_map == b.config_map
      && a.tcp_config_map == b.tcp_config_map
      && a.udp_config_map == b.udp_config_map
    else false

-- `IpvsdrProviderStatusEqual`
unfoldable pub ipvsdr_provider_status_equal : IpvsdrProviderStatus → IpvsdrProviderStatus → Bool
unfolding pod_statuses_equal
ipvsdr_provider_status_equal a b =
    if pod_statuses_equal a.pod_statuses b.pod_statuses
    then a.deployment == b.deployment && a.vip == b.vip && a.vrid == b.vrid
    else false
