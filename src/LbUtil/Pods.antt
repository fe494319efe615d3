-- ===== src/LbUtil/Pods.antt =====
-- ComputePodStatus of pkg/util/lb/lb.go.
pub mod Readiness
use loadbalancer_controller.Common.{
  ℕ, zero, suc, ◌≡◌, refl, String, ◌<>◌, ◌+◌, ◌-◌, ◌%◌, ◌^◌, Bool, true,
}
use loadbalancer_controller.Common.{false, not, ◌&&◌, List, [], ◌∷◌, Option, none, some, length}
use loadbalancer_controller.Common.{◌==◌, nat_eq, string_eq, if◌then◌else◌, arith, is_some}
use loadbalancer_controller.Api.{Pod, ContainerStatus, Terminated, PodStatus, int32}
use loadbalancer_controller.Common.Decimal.{show_int32}

pub record Tally : Type 0 where
  pub restarts : ℕ
  pub ready_containers : ℕ
  pub reason : String

-- The last branch of the loop's body.
count_ready : ContainerStatus → Tally → Tally
count_ready c t =
    if c.ready && c.running then record t { ready_containers = t.ready_containers + 1 } else t

-- The branches on `State.Terminated`.
ended : ContainerStatus → Option Terminated → Tally → Tally
unfolding count_ready
ended c none t = count_ready c t
ended c (some e) t =
    if e.reason == ""
    then if e.signal == 0
      then record t { reason = "ExitCode:" <> show_int32 e.exit_code }
      else record t { reason = "Signal:" <> show_int32 e.signal }
    else record t { reason = e.reason }

-- The branch on `State.Waiting`.
state_of : ContainerStatus → Option String → Tally → Tally
unfolding ended
state_of c none t = ended c c.terminated t
state_of c (some waiting) t =
    if waiting == "" then ended c c.terminated t else record t { reason = waiting }

-- The body of the loop.
unfoldable pub tally_one : ContainerStatus → Tally → Tally
unfolding state_of
tally_one c t = state_of c c.waiting (record t { restarts = t.restarts + c.restart_count })

-- The loop, from the last container to the first.
unfoldable pub tally : List ContainerStatus → Tally → Tally
unfolding tally_one
tally [] t = t
tally (c ∷ cs) t = tally_one c (tally cs t)

-- The values before the loop.
abbrev pub start : Pod → Tally
start pod = record {
  restarts = 0;
  ready_containers = 0;
  reason = if pod.reason == "" then pod.phase else pod.reason;
}

-- `NodeUnreachablePodReason`
abbrev pub node_unreachable_pod_reason : String
node_unreachable_pod_reason = "NodeLost"

-- `ComputePodStatus`. The restarts are counted and go nowhere.
unfoldable pub compute_pod_status : Pod → PodStatus
unfolding tally
compute_pod_status pod =
    let total = length pod.containers in
    let counted = tally pod.container_statuses (start pod) in
    let deleted = is_some pod.deletion_timestamp in
    record {
      name = pod.name;
      ready = if deleted then false else counted.ready_containers == total;
      restart_count = 0;
      ready_containers = int32 counted.ready_containers;
      total_containers = int32 total;
      node_name = pod.node_name;
      reason =
          if deleted
          then if pod.reason == node_unreachable_pod_reason then "Unknown" else "Terminating"
          else counted.reason;
      message = "";
    }
