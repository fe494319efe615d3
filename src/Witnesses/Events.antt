-- ===== src/Witnesses/Events.antt =====
-- Examples for the events of pods and deployments.
use loadbalancer_controller.Common.{
  true, false, none, some, [], ◌∷◌, ◌≡◌, refl, inl, Bool, string_eq,
}
use loadbalancer_controller.Common.Effects.{ok}
use loadbalancer_controller.Common.GoMap.{lookup}
use loadbalancer_controller.Api.{Pod, Deployment, OwnerReference}
use loadbalancer_controller.Cluster.{load_balancer, pod, tombstone, add, add_after, nginx_queue}
use loadbalancer_controller.Listers.{get_lb_cached}
use loadbalancer_controller.Nginx.Selector.{selector, pod_filtered, filtered_by_label}
use loadbalancer_controller.Handlers.Pods.Owner.{HasLabels, HasLabels-append}
use loadbalancer_controller.Common.GoMap.{Entries, entries}
use loadbalancer_controller.Common.{◌++◌}
use loadbalancer_controller.Handlers.Pods as Pods
use loadbalancer_controller.Handlers.Pods.Events as PodEvents
use loadbalancer_controller.Handlers.Pods.Events.{pod_events-enqueue}
use loadbalancer_controller.Handlers.Deployments as Deployments
use loadbalancer_controller.Handlers.Deployments.Events as DeploymentEvents
use loadbalancer_controller.Handlers.Deployments.Events.{IsControlledBy}
use loadbalancer_controller.LbUtil.Names.{no_dot}
use loadbalancer_controller.Witnesses.Samples.{library, cluster, named, sample_lb}

-- A pod of a deployment has one more label.
abbrev hashed : Entries
hashed = entries (selector sample_lb) ++ ("pod-template-hash", "5d8") ∷ []

hashed-HasLabels : HasLabels (selector sample_lb) (some hashed)
hashed-HasLabels = HasLabels-append (entries (selector sample_lb)) _

abbrev before : Pod
before = record {
  meta = record (named "p-1" "p1") { labels = some hashed };
  node_name = "node-1";
  containers = [];
  phase = "Running";
  reason = "";
  container_statuses = [];
}

abbrev after : Pod
after = record before { meta = record (before.meta) { resource_version = "2" } }

pod_events-enqueue_example :
    (Pods.on_add cluster library
        (PodEvents.handler nginx_queue (pod_filtered library))
        (pod after)
        []
      ≡ (ok tt, add nginx_queue (load_balancer sample_lb) ∷ []))
    × (Pods.on_update cluster library
          (PodEvents.handler nginx_queue (pod_filtered library))
          (pod before)
          (pod after)
          []
        ≡ (ok tt, add_after nginx_queue (load_balancer sample_lb) "1s" ∷ []))
    × (Pods.on_delete cluster library
          (PodEvents.handler nginx_queue (pod_filtered library))
          (pod after)
          []
        ≡ (ok tt, add nginx_queue (load_balancer sample_lb) ∷ []))
    × (Pods.on_delete cluster library
          (PodEvents.handler nginx_queue (pod_filtered library))
          (tombstone (pod after))
          []
        ≡ (ok tt, add nginx_queue (load_balancer sample_lb) ∷ []))
unfolding get_lb_cached filtered_by_label lookup no_dot
pod_events-enqueue_example =
    pod_events-enqueue cluster library nginx_queue (pod_filtered library) sample_lb sample_lb []
      refl refl refl refl before after (inl hashed-HasLabels) (inl hashed-HasLabels) refl refl refl

abbrev owner : OwnerReference
owner = record {
  api_version = "";
  kind = "LoadBalancer";
  name = "web";
  uid = "lb-1";
  controller = some true;
  block_owner_deletion = none;
}

abbrev alive : Deployment
alive = record {
  meta = record (named "d-1" "d1") { owner_references = owner ∷ [] };
  replicas = some 1;
  template = record {
    labels = none;
    annotations = none;
    spec = record {
      host_network = true;
      termination_grace_period_seconds = none;
      affinity = none;
      tolerations = [];
      containers = [];
      volumes = [];
    };
  };
}

abbrev orphan : Deployment
orphan = record alive { meta = record (named "d-2" "d2") { labels = selector sample_lb } }

abbrev keep_all : Deployment → Bool
keep_all d = false
