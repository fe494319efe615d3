-- ===== src/Nginx/Generate.antt =====
-- GenerateDeployment of proxy/proxies/nginx/nginx.go.
use loadbalancer_controller.Common.{ℕ, String, ◌<>◌, true, none, some}
use loadbalancer_controller.Common.{List, [], ◌∷◌, ◌++◌, ◌==◌, string_eq, nat_eq}
use loadbalancer_controller.Common.{if◌then◌else◌}
use loadbalancer_controller.Api.{
  LoadBalancer, Deployment, Container, ContainerPort, EnvVar, text, field_ref, HttpGet,
}
use loadbalancer_controller.Api.{NodeAffinity, PodAffinityTerm, OwnerReference, PodSpec}
use loadbalancer_controller.Api.{
  label_key_proxy, created_by, unique_label_key, load_balancer_kind, alpha_group_name, version,
  load_balancer_type_external,
}
use loadbalancer_controller.LbUtil.{calculate_replicas}
use loadbalancer_controller.LbUtil.Random.{rand_string_bytes_rmndr}
use loadbalancer_controller.Toleration.{generate_tolerations}
use loadbalancer_controller.Nginx.Selector.{Nginx, proxy_name, proxy_name_suffix, selector}
use loadbalancer_controller.Nginx.ConfigMaps.{
  config_map_name, tcp_config_map_name, udp_config_map_name,
}

-- `ingressControllerPort`
abbrev ingress_controller_port : ℕ
ingress_controller_port = 8282

-- The pod runs on the nodes that carry the label of the load balancer.
abbrev pub node_affinity : LoadBalancer → NodeAffinity
node_affinity lb = record {
  required =
      (record { key = unique_label_key lb.namespace lb.name; operator = "In"; values = "true" ∷ [] }
        ∷ [])
      ∷ [];
}

-- No two proxies run on one host.
abbrev pub pod_anti_affinity : List PodAffinityTerm
pod_anti_affinity =
    record {
      match_labels = some ((label_key_proxy, proxy_name) ∷ []);
      topology_key = "kubernetes.io/hostname";
    }
    ∷ []

abbrev pub owner_reference : LoadBalancer → OwnerReference
owner_reference lb = record {
  api_version = alpha_group_name <> "/" <> version;
  kind = load_balancer_kind;
  name = lb.name;
  uid = lb.uid;
  controller = some true;
  block_owner_deletion = some true;
}

abbrev pod_env : List EnvVar
pod_env =
    record { name = "POD_NAME"; value = field_ref "metadata.name" }
    ∷ record { name = "POD_NAMESPACE"; value = field_ref "metadata.namespace" }
    ∷ []

abbrev probe : HttpGet
probe = record { path = "/healthz"; port = 80; scheme = "HTTP" }

abbrev port : ℕ → ContainerPort
port n = record { container_port = n; protocol = "" }

-- The arguments, without and with the certificate.
abbrev controller_args : Nginx → LoadBalancer → List String
controller_args f lb =
    ("/nginx-ingress-controller"
      ∷ "--default-backend-service=default/default-http-backend"
      ∷ ("--ingress-class=" <> created_by lb.namespace lb.name)
      ∷ ("--configmap=" <> lb.namespace <> "/" <> config_map_name lb.name)
      ∷ ("--tcp-services-configmap=" <> lb.namespace <> "/" <> tcp_config_map_name lb.name)
      ∷ ("--udp-services-configmap=" <> lb.namespace <> "/" <> udp_config_map_name lb.name)
      ∷ "--healthz-port=8282"
      ∷ "--health-check-path=/healthz"
      ∷ [])
    ++ (if f.default_ssl_certificate == ""
        then []
        else ("--default-ssl-certificate=" <> f.default_ssl_certificate) ∷ [])

abbrev pub ingress_container : Nginx → LoadBalancer → Container
ingress_container f lb = record {
  name = "ingress-nginx-controller";
  image = f.image;
  image_pull_policy = "Always";
  resources = lb.spec.proxy.resources;
  ports = port 80 ∷ port 443 ∷ port ingress_controller_port ∷ [];
  env = pod_env;
  args = controller_args f lb;
  readiness_probe = some probe;
  liveness_probe = some probe;
  privileged = none;
  volume_mounts = [];
}

abbrev pub sidecar_container : Nginx → LoadBalancer → Container
sidecar_container f lb = record {
  name = "sidecar";
  image = f.sidecar;
  image_pull_policy = "Always";
  resources = record { limits = some (("cpu", "100m") ∷ ("memory", "50Mi") ∷ []); requests = none };
  ports = [];
  env =
      pod_env
      ++ record { name = "LOADBALANCER_NAMESPACE"; value = text lb.namespace }
        ∷ record { name = "LOADBALANCER_NAME"; value = text lb.name }
        ∷ [];
  args = [];
  readiness_probe = none;
  liveness_probe = none;
  privileged = some true;
  volume_mounts = [];
}

-- The pods' specification; the tolerated keys are a global of the program.
abbrev pub pod_spec : Nginx → List String → LoadBalancer → PodSpec
pod_spec f keys lb = record {
  host_network = lb.spec.kind == load_balancer_type_external;
  termination_grace_period_seconds = some 30;
  affinity = some (record {
    node_affinity = if (calculate_replicas lb).1 then some (node_affinity lb) else none;
    pod_anti_affinity = some pod_anti_affinity;
  });
  tolerations = generate_tolerations keys;
  containers = ingress_container f lb ∷ sidecar_container f lb ∷ [];
  volumes = [];
}

-- `GenerateDeployment`, from the random numbers and the tolerated keys.
unfoldable pub generate_deployment : Nginx → (ℕ → ℕ) → List String → LoadBalancer → Deployment
unfolding rand_string_bytes_rmndr generate_tolerations calculate_replicas
generate_deployment f int63 keys lb = record {
  meta = record {
    name = lb.name <> proxy_name_suffix <> "-" <> rand_string_bytes_rmndr int63 4;
    namespace = "";
    uid = "";
    resource_version = "";
    labels = selector lb;
    owner_references = owner_reference lb ∷ [];
    deletion_timestamp = none;
  };
  replicas = some (calculate_replicas lb).0;
  template = record {
    labels = selector lb;
    annotations = some (("prometheus.io/port", "8282") ∷ ("prometheus.io/scrape", "true") ∷ []);
    spec = pod_spec f keys lb;
  };
}
