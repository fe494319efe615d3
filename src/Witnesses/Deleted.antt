-- ===== src/Witnesses/Deleted.antt =====
-- Examples for the whole syncs, with the registered plugins and of load balancers that are gone.
use loadbalancer_controller.Common.{
  String, Bool, true, none, some, List, [], ◌∷◌, ◌≡◌, refl, string_eq, nat_eq,
}
use loadbalancer_controller.Common.Effects.{reply, ok}
use loadbalancer_controller.Common.GoMap.{lookup}
use loadbalancer_controller.Api.{created_by, LoadBalancer, Deployment, OwnerReference}
use loadbalancer_controller.Cluster.{
  Cluster, HasAggregate, load_balancer, delete_deployment, delete_config_maps, list_ingresses,
  delete_ingress, add, nginx_queue, ipvsdr_queue,
}
use loadbalancer_controller.Plugins.{Plugin}
use loadbalancer_controller.Listers.{get_lb_cached}
use loadbalancer_controller.Validation.{validate_load_balancer}
use loadbalancer_controller.Nginx.Selector.{Nginx}
use loadbalancer_controller.Nginx.Selector as NginxSelector
use loadbalancer_controller.Ipvsdr.Selector as IpvsdrSelector
use loadbalancer_controller.Ipvsdr.Selector.{Ipvsdr}
use loadbalancer_controller.Nginx.Plugin as NginxPlugin
use loadbalancer_controller.Ipvsdr.Plugin as IpvsdrPlugin
use loadbalancer_controller.Nginx.Sync as NginxSync
use loadbalancer_controller.Ipvsdr.Sync as IpvsdrSync
use loadbalancer_controller.Nginx.Sync.Cleanup.{sync_load_balancer-cleanup, created}
use loadbalancer_controller.Ipvsdr.Cleanup.{sync_load_balancer-gone}
use loadbalancer_controller.Controller.Nodes.{sync_nodes}
use loadbalancer_controller.Controller.Sync.{sync_load_balancer, without_nodes}
use loadbalancer_controller.Controller.Sync.Composed.{sync_load_balancer-plugins}
use loadbalancer_controller.Controller.Sync.Shared.{sync_load_balancer-without_nodes}
use loadbalancer_controller.Witnesses.Samples.{
  library, library-HasDeepCopy, cluster, named, sample_lb, routines,
}

abbrev any_ip : String → Bool
any_ip s = true

abbrev images : Nginx
images = record {
  image = "nginx";
  sidecar = "sidecar";
  default_http_backend = "";
  default_ssl_certificate = "";
}

abbrev image : Ipvsdr
image = record { image = "ipvsdr" }

abbrev proxies : List Plugin
proxies = record { name = "nginx"; on_sync = NginxSelector.on_sync cluster } ∷ []

abbrev providers : List Plugin
providers = record { name = "ipvsdr"; on_sync = IpvsdrSelector.on_sync cluster } ∷ []

-- The lister has the load balancer: both plugins have it before the nodes are synced.
sync_load_balancer-plugins_example :
    sync_load_balancer cluster library any_ip proxies providers (load_balancer sample_lb) []
    ≡ sync_nodes cluster library any_ip sample_lb (
        add ipvsdr_queue (load_balancer sample_lb) ∷ add nginx_queue (load_balancer sample_lb) ∷ [])
unfolding get_lb_cached NginxPlugin.register IpvsdrPlugin.register validate_load_balancer
sync_load_balancer-plugins_example =
    sync_load_balancer-plugins cluster library library-HasDeepCopy any_ip proxies providers refl
      refl sample_lb [] refl

sync_load_balancer-without_nodes_example :
    (NginxSync.sync_load_balancer cluster library routines any_ip images []
        (load_balancer (without_nodes sample_lb))
        []
      ≡ NginxSync.sync_load_balancer cluster library routines any_ip images []
          (load_balancer sample_lb)
          [])
    × (IpvsdrSync.sync_load_balancer cluster library routines any_ip image []
          (load_balancer (without_nodes sample_lb))
          []
        ≡ IpvsdrSync.sync_load_balancer cluster library routines any_ip image []
            (load_balancer sample_lb)
            [])
sync_load_balancer-without_nodes_example =
    sync_load_balancer-without_nodes cluster library routines any_ip [] sample_lb [] images image

-- A load balancer that is being deleted, which the lister no longer has.
abbrev leaving : LoadBalancer
leaving = record sample_lb { meta = record (sample_lb.meta) { deletion_timestamp = some 1 } }

abbrev owner : OwnerReference
owner = record {
  api_version = "";
  kind = "LoadBalancer";
  name = "web";
  uid = "lb-1";
  controller = some true;
  block_owner_deletion = none;
}

abbrev deployment_of : String → String → String → List OwnerReference → Deployment
deployment_of name key value owners = record {
  meta = record (named name name) {
    labels =
        some (("loadbalancer.net.alpha.caicloud.io/created-by", "prod.web") ∷ (key, value) ∷ []);
    owner_references = owners;
  };
  replicas = some 1;
  template = record {
    labels = none;
    annotations = none;
    spec = record {
      host_network = true;
      termination_grace_period_seconds = none;
      affinity = none;
      tolerations = [];
      containers = [];
      volumes = [];
    };
  };
}

abbrev deployments : String → String → List Deployment
deployments key value =
    deployment_of "mine" key value (owner ∷ []) ∷ deployment_of "orphan" key value [] ∷ []

abbrev emptied : String → String → Cluster
emptied key value = record cluster {
  indexed_lb = λ h k. reply none;
  cached_deployments = λ h ns s. reply (deployments key value);
  live_ingresses = λ h s. reply (record { name = "in"; namespace = "prod" } ∷ []);
}

library-HasAggregate : HasAggregate library
library-HasAggregate = record { aggregate-nil = refl; aggregate-cons = λ e es p. cc }

-- The orphan stays.
sync_load_balancer-cleanup_example :
    NginxSync.sync_load_balancer
      (emptied "loadbalancer.net.alpha.caicloud.io/proxy" "nginx")
      library
      routines
      any_ip
      images
      []
      (load_balancer leaving)
      []
    ≡ (
      ok tt,
      delete_ingress "prod" "in"
          ∷ list_ingresses (created leaving)
          ∷ delete_config_maps "prod" (NginxSelector.selector leaving)
          ∷ delete_deployment "prod" "mine" 30 "Foreground"
          ∷ [],
    )
unfolding get_lb_cached validate_load_balancer lookup created_by
sync_load_balancer-cleanup_example =
    sync_load_balancer-cleanup (emptied "loadbalancer.net.alpha.caicloud.io/proxy" "nginx") library
      library-HasAggregate routines any_ip images [] leaving
      (deployments "loadbalancer.net.alpha.caicloud.io/proxy" "nginx")
      (record { name = "in"; namespace = "prod" } ∷ []) [] refl refl refl refl (λ h c. refl) refl

sync_load_balancer-gone_example :
    IpvsdrSync.sync_load_balancer
      (emptied "loadbalancer.net.alpha.caicloud.io/provider" "ipvsdr")
      library
      routines
      any_ip
      image
      []
      (load_balancer leaving)
      []
    ≡ (ok tt, delete_deployment "prod" "mine" 30 "Foreground" ∷ [])
unfolding get_lb_cached validate_load_balancer lookup created_by
sync_load_balancer-gone_example =
    sync_load_balancer-gone (emptied "loadbalancer.net.alpha.caicloud.io/provider" "ipvsdr") library
      library-HasAggregate routines any_ip image [] leaving
      (deployments "loadbalancer.net.alpha.caicloud.io/provider" "ipvsdr") [] refl refl refl refl
