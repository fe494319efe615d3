-- ===== src/Witnesses/Util.antt =====
-- Examples for pkg/util/lb, pkg/util/taints and pkg/util/validation.
use loadbalancer_controller.Common.{
  String, Bool, true, none, some, ◌≡◌, refl, ◌↔◌, [], ◌∷◌, ◌==◌, string_eq, nat_eq, length, ◌<>◌,
}
use loadbalancer_controller.Common.Effects.{failed, message}
use loadbalancer_controller.Api.{
  Taint, Node, Pod, ContainerStatus, PodStatus, PodStatuses, created_by,
}
use loadbalancer_controller.Witnesses.Samples.{library, library-HasTaintHelpers, named, sample_lb}
use loadbalancer_controller.LbUtil.Statuses.{pod_statuses_equal}
use loadbalancer_controller.LbUtil.Statuses.Order.{SameCounters, pod_statuses_equal_iff}
use loadbalancer_controller.Taints.{reorganize_taints}
use loadbalancer_controller.Taints.Reorganize.{reorganize_taints-add_twice}
use loadbalancer_controller.Validation.{validate_load_balancer, IsValid, validate_load_balancer_iff}
use loadbalancer_controller.LbUtil.Names.{no_dot, split_namespace_and_name_by_dot, split-created_by}
use loadbalancer_controller.LbUtil.Pods.{compute_pod_status}
use loadbalancer_controller.LbUtil.Pods.Readiness.{count_up, compute_pod_status-ready}
use mathlib.Core.List.{Perm}

abbrev pod_status : String → PodStatus
pod_status name = record {
  name = name;
  ready = true;
  restart_count = 0;
  ready_containers = 1;
  total_containers = 1;
  node_name = "node-1";
  reason = "Running";
  message = "";
}

abbrev two_pods : PodStatuses
two_pods = record {
  replicas = 2;
  total_replicas = 2;
  ready_replicas = 2;
  statuses = pod_status "p-1" ∷ pod_status "p-2" ∷ [];
}

abbrev swapped_pods : PodStatuses
swapped_pods = record two_pods { statuses = pod_status "p-2" ∷ pod_status "p-1" ∷ [] }

pod_statuses_equal_iff_example :
    (pod_statuses_equal two_pods swapped_pods ≡ true)
    ↔ (SameCounters two_pods swapped_pods × Perm two_pods.statuses swapped_pods.statuses)
pod_statuses_equal_iff_example =
    pod_statuses_equal_iff two_pods swapped_pods ((refl, tt), (tt, tt)) ((refl, tt), (tt, tt))

-- A node with a taint of its own and one of the controller's key.
abbrev own_taint : Taint
own_taint = record { key = "gpu"; value = "true"; effect = "NoSchedule" }

abbrev dedicated : Taint
dedicated = record {
  key = "loadbalancer.alpha.caicloud.io/dedicated";
  value = "prod.web";
  effect = "NoSchedule";
}

abbrev stale : Taint
stale = record dedicated { value = "prod.old" }

abbrev node : Node
node = record { meta = named "node-1" "n-1"; taints = some (own_taint ∷ stale ∷ []) }

abbrev held_node : Node
held_node = record node {
  taints = some (reorganize_taints library node true (dedicated ∷ []) []).1;
}

reorganize_taints-add_twice_example :
    (reorganize_taints library held_node true (dedicated ∷ []) []).1
    ≡ (reorganize_taints library node true (dedicated ∷ []) []).1
reorganize_taints-add_twice_example =
    reorganize_taints-add_twice library library-HasTaintHelpers dedicated node held_node true true
      ((refl, tt), (tt, tt)) refl

abbrev is_ip : String → Bool
is_ip s = s == "10.0.0.1"

validate_load_balancer_iff_example :
    (validate_load_balancer is_ip sample_lb ≡ none) ↔ IsValid is_ip sample_lb
validate_load_balancer_iff_example = validate_load_balancer_iff is_ip sample_lb

split-created_by_example :
    split_namespace_and_name_by_dot library.quote (created_by "prod" "web.v2")
    ≡ failed (message ("unexpected format: " <> library.quote (created_by "prod" "web.v2")))
unfolding no_dot
split-created_by_example = split-created_by library.quote "prod" "web.v2" refl

abbrev container_status : ContainerStatus
container_status = record {
  restart_count = 3;
  ready = true;
  waiting = none;
  running = true;
  terminated = none;
}

abbrev a_pod : Pod
a_pod = record {
  meta = named "p-1" "p1";
  node_name = "node-1";
  containers = [];
  phase = "Running";
  reason = "";
  container_statuses = container_status ∷ [];
}

compute_pod_status-ready_example : ((compute_pod_status a_pod).ready ≡ true) ↔ (
    (a_pod.deletion_timestamp ≡ none)
    × (count_up a_pod.container_statuses ≡ length a_pod.containers))
compute_pod_status-ready_example = compute_pod_status-ready a_pod
