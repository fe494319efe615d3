-- ===== src/Ipvsdr/Generate.antt =====
-- generateDeployment of provider/providers/ipvsdr/ipvsdr.go.
use loadbalancer_controller.Common.{ℕ, String, ◌<>◌, true, none, some}
use loadbalancer_controller.Common.{List, [], ◌∷◌, string_eq, nat_eq}
use loadbalancer_controller.Api.{LoadBalancer, Deployment, Container, text, field_ref}
use loadbalancer_controller.Api.{NodeAffinity, PodAffinityTerm, OwnerReference, PodSpec}
use loadbalancer_controller.Api.{
  label_key_provider, unique_label_key, load_balancer_kind, alpha_group_name, version,
}
use loadbalancer_controller.LbUtil.{calculate_replicas}
use loadbalancer_controller.LbUtil.Random.{rand_string_bytes_rmndr}
use loadbalancer_controller.Toleration.{generate_tolerations}
use loadbalancer_controller.Ipvsdr.Selector.{Ipvsdr, provider_name, provider_name_suffix, selector}

-- The pod runs on the nodes that carry the label of the load balancer.
abbrev pub node_affinity : LoadBalancer → NodeAffinity
node_affinity lb = record {
  required =
      (record { key = unique_label_key lb.namespace lb.name; operator = "In"; values = "true" ∷ [] }
        ∷ [])
      ∷ [];
}

-- No two providers run on one host.
abbrev pub pod_anti_affinity : List PodAffinityTerm
pod_anti_affinity =
    record {
      match_labels = some ((label_key_provider, provider_name) ∷ []);
      topology_key = "kubernetes.io/hostname";
    }
    ∷ []

abbrev pub owner_reference : LoadBalancer → OwnerReference
owner_reference lb = record {
  api_version = alpha_group_name <> "/" <> version;
  kind = load_balancer_kind;
  name = lb.name;
  uid = lb.uid;
  controller = some true;
  block_owner_deletion = some true;
}

abbrev pub provider_container : Ipvsdr → LoadBalancer → Container
provider_container f lb = record {
  name = provider_name;
  image = f.image;
  image_pull_policy = "Always";
  resources = record { limits = some (("cpu", "200m") ∷ ("memory", "50Mi") ∷ []); requests = none };
  ports = [];
  env =
      record { name = "POD_NAME"; value = field_ref "metadata.name" }
      ∷ record { name = "POD_NAMESPACE"; value = field_ref "metadata.namespace" }
      ∷ record { name = "LOADBALANCER_NAMESPACE"; value = text lb.namespace }
      ∷ record { name = "LOADBALANCER_NAME"; value = text lb.name }
      ∷ [];
  args = [];
  readiness_probe = none;
  liveness_probe = none;
  privileged = some true;
  volume_mounts = record { name = "modules"; mount_path = "/lib/modules"; read_only = true } ∷ [];
}

abbrev pub pod_spec : Ipvsdr → List String → LoadBalancer → PodSpec
pod_spec f keys lb = record {
  host_network = true;
  termination_grace_period_seconds = some 30;
  affinity = some (record {
    node_affinity = some (node_affinity lb);
    pod_anti_affinity = some pod_anti_affinity;
  });
  tolerations = generate_tolerations keys;
  containers = provider_container f lb ∷ [];
  volumes = record { name = "modules"; host_path = "/lib/modules" } ∷ [];
}

-- `generateDeployment`, from the random numbers and the tolerated keys.
unfoldable pub generate_deployment : Ipvsdr → (ℕ → ℕ) → List String → LoadBalancer → Deployment
unfolding rand_string_bytes_rmndr generate_tolerations calculate_replicas
generate_deployment f int63 keys lb = record {
  meta = record {
    name = lb.name <> provider_name_suffix <> "-" <> rand_string_bytes_rmndr int63 4;
    namespace = "";
    uid = "";
    resource_version = "";
    labels = selector lb;
    owner_references = owner_reference lb ∷ [];
    deletion_timestamp = none;
  };
  replicas = some (calculate_replicas lb).0;
  template = record { labels = selector lb; annotations = none; spec = pod_spec f keys lb };
}
