-- ===== src/Ipvsdr/Status.antt =====
-- provider/providers/ipvsdr/status.go
use loadbalancer_controller.Common.{ℕ, ◌+◌, Bool, false, Option, none, some}
use loadbalancer_controller.Common.{[], string_eq, nat_eq}
use loadbalancer_controller.Common.{if◌then◌else◌}
use loadbalancer_controller.Common.Effects.{reply}
use loadbalancer_controller.Common.Effects.{Exec, pure, lift, deref, observe}
use loadbalancer_controller.Common.Effects.{◌>>=◌}
use loadbalancer_controller.Api.{
  LoadBalancer, Deployment, PodStatuses, IpvsdrProvider, IpvsdrProviderStatus, Vrid, minus_one, at,
  below,
}
use loadbalancer_controller.Cluster.{Cluster, Routines, Call}
use loadbalancer_controller.LbUtil.{ipvsdr_provider_status_equal}
use loadbalancer_controller.LbUtil.Retry.{update_lb_with_retries}
use loadbalancer_controller.Workload.{status_loop}
use loadbalancer_controller.Workload.Sorting.{sort_statuses}
use loadbalancer_controller.Ipvsdr.Selector.{selector}

-- `getValidVRID`, from what `rand.Intn(254)` gives.
unfoldable pub get_valid_vrid : ℕ → ℕ
get_valid_vrid intn = intn + 1

-- The `vrid` is kept if it is there and is not -1. Otherwise a new one is drawn.
unfoldable pub keep_vrid : ℕ → Option Vrid → Vrid
unfolding get_valid_vrid
keep_vrid intn none = at (get_valid_vrid intn)
keep_vrid intn (some minus_one) = at (get_valid_vrid intn)
keep_vrid intn (some (at n)) = at n
keep_vrid intn (some (below n)) = below n

unfoldable pub choose_vrid : ℕ → Option IpvsdrProviderStatus → Vrid
unfolding keep_vrid
choose_vrid intn none = at (get_valid_vrid intn)
choose_vrid intn (some s) = keep_vrid intn s.vrid

-- The counters before the loop.
abbrev pub no_pods : ℕ → PodStatuses
no_pods replicas = record {
  replicas = replicas;
  total_replicas = 0;
  ready_replicas = 0;
  statuses = [];
}

-- The status, from what the loop has found.
abbrev pub provider_status : IpvsdrProvider → Deployment → Vrid → PodStatuses → IpvsdrProviderStatus
provider_status p active vrid found = record {
  pod_statuses = record found { statuses = sort_statuses found.statuses };
  deployment = active.name;
  vip = p.vip;
  vrid = some vrid;
}

-- The status is there, and is equal to the other.
abbrev pub is_up_to_date : Option IpvsdrProviderStatus → IpvsdrProviderStatus → Bool
is_up_to_date none s = false
is_up_to_date (some old) s = ipvsdr_provider_status_equal old s

-- What the retried update writes.
abbrev pub with_provider_status : IpvsdrProviderStatus → LoadBalancer → LoadBalancer
with_provider_status s lb = record lb {
  status = record (lb.status) {
    providers_statuses = record (lb.status.providers_statuses) { ipvsdr = some s };
  };
}

module _ (C : Cluster) (R : Routines) where
  -- The status is written if it is not that of the load balancer.
  unfoldable pub write_status : LoadBalancer → IpvsdrProviderStatus → Exec Call (Unit {0})
  unfolding update_lb_with_retries
  write_status lb s =
      if is_up_to_date lb.status.providers_statuses.ipvsdr s
      then pure tt
      else update_lb_with_retries C R lb.namespace lb.name (λ l. reply (with_provider_status s l))

  -- `syncStatus`. A load balancer with no ipvsdr provider makes it panic.
  unfoldable pub sync_status : LoadBalancer → Deployment → Exec Call (Unit {0})
  unfolding status_loop sort_statuses ipvsdr_provider_status_equal write_status choose_vrid
  sync_status lb active = deref active.replicas >>= λ replicas.
      deref lb.spec.providers.ipvsdr >>= λ p. observe C.intn_254 >>= λ intn.
      (λ h. lift (C.cached_pods h (selector lb)) h) >>= λ pods.
      status_loop C lb pods (no_pods replicas) >>= λ found.
      write_status lb
        (provider_status p active (choose_vrid intn lb.status.providers_statuses.ipvsdr) found)
