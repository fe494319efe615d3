-- ===== src/Witnesses/Steady.antt =====
-- Examples of a load balancer that is as an earlier sync has left it.
use loadbalancer_controller.Common.{
  String, Bool, true, none, some, [], ◌∷◌, ◌≡◌, refl, string_eq, nat_eq,
}
use loadbalancer_controller.Common.Effects.{reply, ok}
use loadbalancer_controller.Common.GoMap.{lookup, insert, deep_equal}
use loadbalancer_controller.Api.{LoadBalancer, Deployment, ConfigMap, Pod, created_by}
use loadbalancer_controller.Cluster.{Cluster, HasAggregate, load_balancer}
use loadbalancer_controller.LbUtil.{compute_pod_status, calculate_replicas}
use loadbalancer_controller.Validation.{validate_load_balancer}
use loadbalancer_controller.Listers.{get_lb_cached}
use loadbalancer_controller.Workload.Totals.{totals, count_ready, evictions}
use loadbalancer_controller.Nginx.Selector.{Nginx}
use loadbalancer_controller.Nginx.ConfigMaps.{default_config, merge}
use loadbalancer_controller.Nginx.Generate.{generate_deployment}
use loadbalancer_controller.Nginx.Status.{proxy_status}
use loadbalancer_controller.Nginx.Sync.{sync_load_balancer}
use loadbalancer_controller.Workload.Stored.{stored}
use loadbalancer_controller.Nginx.Status.{sync_status}
use loadbalancer_controller.Nginx.Sync.Fresh.{creations, sync_load_balancer-fresh}
use loadbalancer_controller.Nginx.Sync.Steady.{
  HasConfigMaps, HasStatus, config_reads, sync_load_balancer-steady,
}
use loadbalancer_controller.Ipvsdr.Selector.{Ipvsdr}
use loadbalancer_controller.Ipvsdr.Generate as IpvsdrGenerate
use loadbalancer_controller.Ipvsdr.Status.{provider_status}
use loadbalancer_controller.Ipvsdr.Sync as IpvsdrSync
use loadbalancer_controller.Ipvsdr.Sync.Steady as IpvsdrSteady
use loadbalancer_controller.Ipvsdr.Sync.Steady.{sync_load_balancer-settled}
use loadbalancer_controller.Api.{at}
use loadbalancer_controller.Witnesses.Samples.{
  library, library-HasDeepCopy, cluster, named, sample_lb, routines,
}
use mathlib.Core.List.Perm

abbrev any_ip : String → Bool
any_ip s = true

abbrev images : Nginx
images = record {
  image = "nginx:1";
  sidecar = "sidecar:1";
  default_http_backend = "backend:1";
  default_ssl_certificate = "";
}

-- A pod on a node that the load balancer does not name.
abbrev stray : Pod
stray = record {
  meta = named "p-1" "p1";
  node_name = "node-9";
  containers = [];
  phase = "Running";
  reason = "";
  container_statuses = [];
}

abbrev generated : Deployment
generated = stored "prod" "d-1" "7" (generate_deployment images (λ n. n) [] sample_lb)

-- The load balancer with the status of the deployment and the pod.
abbrev settled : LoadBalancer
settled = record sample_lb {
  status = record (sample_lb.status) {
    proxy_status = proxy_status sample_lb generated (
        totals (calculate_replicas sample_lb).0 1 (count_ready (stray ∷ []))
          (compute_pod_status stray ∷ []));
  };
}

abbrev config : ConfigMap
config = record { name = "web"; labels = none; contents = merge (some default_config) none }

abbrev settled_cluster : Cluster
settled_cluster = record cluster {
  indexed_lb = λ h k. reply (some settled);
  cached_deployments = λ h ns s. reply (generated ∷ []);
  cached_pods = λ h s. reply (stray ∷ []);
  live_config_map = λ h ns name. reply config;
}

config_maps : HasConfigMaps settled_cluster settled
unfolding deep_equal merge insert
config_maps = record {
  config = config;
  tcp = config;
  udp = config;
  config_there = λ h. refl;
  config_merged = refl;
  tcp_there = λ h. refl;
  udp_there = λ h. refl;
}

status :
    HasStatus settled_cluster settled
      (stored "prod" "d-1" "7" (generate_deployment images (λ n. n) [] settled))
      (stray ∷ [])
unfolding generate_deployment
status = record {
  earlier = compute_pod_status stray ∷ [];
  pods_listed = λ h. refl;
  distinct_before = (tt, tt);
  distinct_now = (tt, tt);
  same_pods = Perm.refl (compute_pod_status stray ∷ []);
  written = refl;
}

library-HasAggregate : HasAggregate library
library-HasAggregate = record { aggregate-nil = refl; aggregate-cons = λ e es p. cc }

sync_load_balancer-steady_example :
    sync_load_balancer settled_cluster library routines any_ip images []
      (load_balancer sample_lb)
      []
    ≡ (ok tt, evictions settled (stray ∷ []) (config_reads settled []))
unfolding get_lb_cached validate_load_balancer generate_deployment lookup created_by
sync_load_balancer-steady_example =
    sync_load_balancer-steady settled_cluster library library-HasAggregate library-HasDeepCopy
      routines any_ip images [] settled (λ n. n) "prod" "d-1" "7" (stray ∷ []) config_maps status
      sample_lb [] refl refl refl refl refl refl

abbrev image : Ipvsdr
image = record { image = "ipvsdr:1" }

abbrev provider : Deployment
provider = stored "prod" "d-2" "8" (IpvsdrGenerate.generate_deployment image (λ n. n) [] sample_lb)

-- The load balancer with the provider's status, with another router id than the one that is drawn.
abbrev provided : LoadBalancer
provided = record sample_lb {
  status = record (sample_lb.status) {
    providers_statuses = record (sample_lb.status.providers_statuses) {
      ipvsdr = some (
          provider_status (record { vip = "10.0.0.1"; scheduler = "rr" }) provider (at 42)
            (totals (calculate_replicas sample_lb).0 1 (count_ready (stray ∷ []))
              (compute_pod_status stray ∷ [])));
    };
  };
}

abbrev provided_cluster : Cluster
provided_cluster = record cluster {
  indexed_lb = λ h k. reply (some provided);
  cached_deployments = λ h ns s. reply (provider ∷ []);
  cached_pods = λ h s. reply (stray ∷ []);
}

provided_status :
    IpvsdrSteady.HasStatus provided_cluster provided
      (stored "prod" "d-2" "8" (IpvsdrGenerate.generate_deployment image (λ n. n) [] provided))
      (stray ∷ [])
unfolding IpvsdrGenerate.generate_deployment
provided_status = record {
  provider = record { vip = "10.0.0.1"; scheduler = "rr" };
  vrid = 42;
  earlier = compute_pod_status stray ∷ [];
  named = refl;
  pods_listed = λ h. refl;
  distinct_before = (tt, tt);
  distinct_now = (tt, tt);
  same_pods = Perm.refl (compute_pod_status stray ∷ []);
  written = refl;
}

sync_load_balancer-settled_example :
    IpvsdrSync.sync_load_balancer provided_cluster library routines any_ip image []
      (load_balancer sample_lb)
      []
    ≡ (ok tt, evictions provided (stray ∷ []) [])
unfolding get_lb_cached validate_load_balancer IpvsdrGenerate.generate_deployment lookup created_by
sync_load_balancer-settled_example =
    sync_load_balancer-settled provided_cluster library library-HasAggregate library-HasDeepCopy
      routines any_ip image [] provided (λ n. n) "prod" "d-2" "8" (stray ∷ []) provided_status
      sample_lb [] refl refl refl refl refl refl

-- The first sync of the sample: nothing is there.
sync_load_balancer-fresh_example :
    sync_load_balancer cluster library routines any_ip images [] (load_balancer sample_lb) [] ≡ (
      let desired = generate_deployment images (λ n. n) [] sample_lb in
      sync_status cluster routines sample_lb desired (creations sample_lb desired []))
unfolding get_lb_cached validate_load_balancer
sync_load_balancer-fresh_example =
    sync_load_balancer-fresh cluster sample_lb (λ h c. refl) (λ h. refl) (λ h. refl) (λ h. refl)
      library library-HasAggregate library-HasDeepCopy routines any_ip images [] sample_lb [] refl
      refl refl refl refl
