-- ===== src/LbUtil.antt =====
-- pkg/util/lb/lb.go
pub mod Names
pub mod Statuses
pub mod Pods
pub mod Retry
pub mod Random
pub mod Copies
unfoldable pub use Names.{split_namespace_and_name_by_dot}
unfoldable pub use Statuses.{pod_statuses_equal, proxy_status_equal, ipvsdr_provider_status_equal}
unfoldable pub use Pods.{compute_pod_status}
use loadbalancer_controller.Common.{
  ℕ, suc, String, ◌<>◌, ◌+◌, ◌%◌, Bool, true, false, ◌&&◌, Option, none, some,
}
use loadbalancer_controller.Common.{
  List, length, is_empty, items, ◌==◌, string_eq, if◌then◌else◌, ◌≡◌, arith, not,
}
use loadbalancer_controller.Common.Effects.{
  Error, Reply, reply, failed, Result, Exec, call, attempt, pure, fail,
}
use loadbalancer_controller.Api.{LoadBalancer, int32, load_balancer_type_internal}
use loadbalancer_controller.Cluster.{Cluster, Call}

-- `CalculateReplicas`: the replicas, and whether a node affinity is needed.
unfoldable pub calculate_replicas : LoadBalancer → ℕ × Bool
calculate_replicas lb =
    let wanted =
      if lb.spec.kind == load_balancer_type_internal
      then elim lb.spec.nodes.replicas [ none ↦ 0 | some n ↦ n ]
      else 0 in
    if is_empty (items lb.spec.nodes.names)
    then (wanted, false)
    else (int32 (length (items lb.spec.nodes.names)), true)
