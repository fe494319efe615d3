-- ===== src/LbUtil/Pods/Readiness.antt =====
-- What ComputePodStatus of pkg/util/lb/lb.go says of a pod.
use loadbalancer_controller.Common.{ℕ, ◌≡◌, refl, ◌↔◌, String, ◌<>◌, ◌+◌, Bool, true, not, ◌&&◌}
use loadbalancer_controller.Common.{List, [], ◌∷◌, Option, none, some, length, is_some}
use loadbalancer_controller.Common.{◌==◌, nat_eq, string_eq, if◌then◌else◌, arith}
use loadbalancer_controller.Common.Decimal.{show_int32}
use loadbalancer_controller.Api.{Pod, ContainerStatus, Terminated}
use loadbalancer_controller.LbUtil.Pods.{Tally, start, tally_one, tally, compute_pod_status}

-- A container has no reason to wait.
abbrev no_wait : Option String → Bool
no_wait none = true
no_wait (some r) = r == ""

-- A container that runs, is ready, and neither waits for a reason nor has ended.
abbrev pub is_up : ContainerStatus → Bool
is_up c = no_wait c.waiting && not (is_some c.terminated) && c.ready && c.running

abbrev pub count_up : List ContainerStatus → ℕ
count_up [] = 0
count_up (c ∷ cs) = (if is_up c then 1 else 0) + count_up cs

-- Why a container has ended.
abbrev end_reason : Option Terminated → Option String
end_reason none = none
end_reason (some e) = some (
    if not (e.reason == "")
    then e.reason
    else if e.signal == 0
    then "ExitCode:" <> show_int32 e.exit_code
    else "Signal:" <> show_int32 e.signal)

-- Why a container does not run: the reason that it waits for, or that it has ended for.
abbrev pub stop_reason : ContainerStatus → Option String
stop_reason c = elim c.waiting [
  | none ↦ end_reason c.terminated
  | some r ↦ if r == "" then end_reason c.terminated else some r
]

-- The reason of the first container that has one, or else the given one.
abbrev pub first_reason : String → List ContainerStatus → String
first_reason r [] = r
first_reason r (c ∷ cs) = elim (stop_reason c) [ none ↦ first_reason r cs | some s ↦ s ]

tally_one-ready :
    (c : ContainerStatus) (t : Tally)
    → (tally_one c t).ready_containers ≡ (if is_up c then 1 else 0) + t.ready_containers
unfolding tally_one
tally_one-ready c t = ground arith

tally_one-reason :
    (c : ContainerStatus) (t : Tally)
    → (tally_one c t).reason ≡ elim (stop_reason c) [ none ↦ t.reason | some s ↦ s ]
unfolding tally_one
tally_one-reason c t = ground arith

tally-ready :
    (cs : List ContainerStatus) (t : Tally)
    → (tally cs t).ready_containers ≡ count_up cs + t.ready_containers
unfolding tally
tally-ready [] t = omega arith
tally-ready (c ∷ cs) t = omega (arith, tally_one-ready c (tally cs t), tally-ready cs t)

tally-reason :
    (cs : List ContainerStatus) (t : Tally) → (tally cs t).reason ≡ first_reason t.reason cs
unfolding tally
tally-reason [] t = refl
tally-reason (c ∷ cs) t = rw tally_one-reason (ground (arith, tally-reason cs t))

-- A pod is ready exactly if it is not being deleted and as many containers are up as it has.
pub compute_pod_status-ready :
    (pod : Pod)
    → ((compute_pod_status pod).ready ≡ true) ↔ (
        (pod.deletion_timestamp ≡ none) × (count_up pod.container_statuses ≡ length pod.containers))
unfolding compute_pod_status
compute_pod_status-ready pod = (
  λ h. ground (arith, tally-ready pod.container_statuses (start pod)),
  λ h. ground (arith, tally-ready pod.container_statuses (start pod)),
)

-- The reason of a pod that is being deleted is "Unknown" if its node is lost and "Terminating" if
-- not. That of another pod is the reason of its first container that waits or has ended; if there
-- is none, the pod's own reason; and if that is empty, its phase.
pub compute_pod_status-reason :
    (pod : Pod)
    → (compute_pod_status pod).reason ≡ (
        if is_some pod.deletion_timestamp
        then (if pod.reason == "NodeLost" then "Unknown" else "Terminating")
        else first_reason
            (if pod.reason == "" then pod.phase else pod.reason)
            pod.container_statuses)
unfolding compute_pod_status
compute_pod_status-reason pod = rw tally-reason
