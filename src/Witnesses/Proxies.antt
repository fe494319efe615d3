-- ===== src/Witnesses/Proxies.antt =====
-- Examples for the pods and deployments of the proxies.
use loadbalancer_controller.Common.{
  String, true, false, none, some, ◌≡◌, refl, List, [], ◌∷◌, string_eq,
}
use loadbalancer_controller.Common.GoMap.{Entries, insert, deep_equal}
use loadbalancer_controller.Common.Effects.{ok}
use loadbalancer_controller.Api.{Deployment, Affinity, Pod, ContainerStatus, PodStatus}
use loadbalancer_controller.Cluster.{update_deployment}
use loadbalancer_controller.Witnesses.Samples.{
  library, library-HasDeepCopy, cluster, named, sample_lb,
}
use loadbalancer_controller.LbUtil.{compute_pod_status}
use loadbalancer_controller.Workload.{status_loop}
use loadbalancer_controller.Workload.Totals.{totals, count_ready, evictions, status_loop_lem}
use loadbalancer_controller.Nginx.Ensure.{ensure_deployment}
use loadbalancer_controller.Workload.Loop.{sync_loop}
use loadbalancer_controller.Workload.Loop.Scale.{stopping_calls, sync_loop-first}
use loadbalancer_controller.Handlers.Pods.{fetched, get_loadbalancer_for_pod}
use loadbalancer_controller.Handlers.Pods.Owner.{get_loadbalancer_for_pod-selector}
use loadbalancer_controller.LbUtil.Copies.{deployment_deep_copy}
use loadbalancer_controller.Listers.{get_lb_cached}
use loadbalancer_controller.LbUtil.Names.{no_dot}
use loadbalancer_controller.Nginx.Selector.{selector}
use loadbalancer_controller.Common.{inl}
use loadbalancer_controller.Cluster.{Cluster}
use loadbalancer_controller.Api.{LoadBalancer}
use loadbalancer_controller.Nginx.Status.{proxy_status}
use loadbalancer_controller.Common.Effects.{reply}

abbrev running : ContainerStatus
running = record {
  restart_count = 0;
  ready = true;
  waiting = none;
  running = true;
  terminated = none;
}

-- A pod on a node that the load balancer does not name.
abbrev stray : Pod
stray = record {
  meta = named "p-1" "p1";
  node_name = "node-9";
  containers = [];
  phase = "Running";
  reason = "";
  container_statuses = running ∷ [];
}

status_loop_lem_example : status_loop cluster sample_lb (stray ∷ []) (totals 1 0 0 []) [] ≡ (
  ok (totals 1 1 (count_ready (stray ∷ [])) (compute_pod_status stray ∷ [])),
  evictions sample_lb (stray ∷ []) [],
)
status_loop_lem_example = status_loop_lem cluster sample_lb (stray ∷ []) 1 []

abbrev statuses : List PodStatus
statuses =
    compute_pod_status stray ∷ compute_pod_status (record stray { meta = named "p-0" "p0" }) ∷ []

abbrev plain_labels : Entries
plain_labels = ("app", "web") ∷ []

abbrev no_affinity : Affinity
no_affinity = record { node_affinity = none; pod_anti_affinity = none }

abbrev a_deployment : String → Deployment
a_deployment name = record {
  meta = named name name;
  replicas = some 1;
  template = record {
    labels = none;
    annotations = none;
    spec = record {
      host_network = true;
      termination_grace_period_seconds = none;
      affinity = some no_affinity;
      tolerations = [];
      containers = [];
      volumes = [];
    };
  };
}

abbrev desired : Deployment
desired = record (a_deployment "web-proxy-nginx-abcde") { replicas = some 2 }

abbrev existing : Deployment
existing = a_deployment "web-proxy-nginx-fghij"

abbrev wanted_copy : Deployment
wanted_copy = record existing { replicas = some 2 }

sync_loop-first_example :
    let calls = stopping_calls sample_lb (a_deployment "stray" ∷ []) [] in
    sync_loop cluster library "-proxy-nginx"
      (ensure_deployment library)
      sample_lb
      desired
      (a_deployment "stray" ∷ existing ∷ a_deployment "web-proxy-nginx-klmno" ∷ [])
      false
      desired
      []
    ≡ (
      ok (true, wanted_copy),
      stopping_calls sample_lb
          (a_deployment "web-proxy-nginx-klmno" ∷ [])
          (update_deployment "prod" wanted_copy ∷ calls),
    )
unfolding ensure_deployment insert deep_equal deployment_deep_copy
sync_loop-first_example =
    sync_loop-first cluster library library-HasDeepCopy "-proxy-nginx" (ensure_deployment library)
      sample_lb desired (a_deployment "stray" ∷ []) (a_deployment "web-proxy-nginx-klmno" ∷ [])
      existing desired wanted_copy true [] ((1, refl), tt) (refl, tt) refl ((1, refl), tt) refl refl

-- A pod of the nginx proxy.
abbrev proxy_pod : Pod
proxy_pod = record stray { meta = record (named "p-1" "p1") { labels = selector sample_lb } }

get_loadbalancer_for_pod-selector_example :
    get_loadbalancer_for_pod cluster library proxy_pod []
    ≡ fetched (get_lb_cached cluster library [] "prod" "web")
unfolding no_dot
get_loadbalancer_for_pod-selector_example =
    get_loadbalancer_for_pod-selector cluster library sample_lb proxy_pod [] refl
      (inl (λ key value e. e))

-- A cluster that lists two pods, and a load balancer whose status has them in the other order.
abbrev other_pod : Pod
other_pod = record stray { meta = named "p-0" "p0" }

abbrev pods_cluster : Cluster
pods_cluster = record cluster { cached_pods = λ h s. reply (other_pod ∷ stray ∷ []) }

abbrev settled_lb : LoadBalancer
settled_lb = record sample_lb {
  status = record (sample_lb.status) {
    proxy_status = proxy_status sample_lb desired (
        totals 2 2 (count_ready (other_pod ∷ stray ∷ []))
          (compute_pod_status stray ∷ compute_pod_status other_pod ∷ []));
  };
}
