-- ===== src/Nginx/Backend.antt =====
-- proxy/proxies/nginx/default.go
use loadbalancer_controller.Common.{String, false, none, some}
use loadbalancer_controller.Common.{[], ◌∷◌, string_eq, nat_eq}
use loadbalancer_controller.Common.{if◌then◌else◌}
use loadbalancer_controller.Common.Effects.{is_already_exists, Reply, reply, failed}
use loadbalancer_controller.Common.Effects.{Exec, pure, fail, call, attempt}
use loadbalancer_controller.Common.Effects.{◌>>=◌, ◌>>◌}
use loadbalancer_controller.Common.GoMap.{GoMap}
use loadbalancer_controller.Api.{Deployment}
use loadbalancer_controller.Cluster.{Cluster, Call, create_deployment, create_service}
use loadbalancer_controller.Nginx.Selector.{Nginx}

abbrev default_http_backend_name : String
default_http_backend_name = "default-http-backend"

abbrev default_http_backend_namespace : String
default_http_backend_namespace = "default"

abbrev backend_labels : GoMap
backend_labels = some (("app", default_http_backend_name) ∷ [])

-- The deployment that `ensureDefaultHTTPBackend` creates.
abbrev pub backend_deployment : Nginx → Deployment
backend_deployment f = record {
  meta = record {
    name = default_http_backend_name;
    namespace = default_http_backend_namespace;
    uid = "";
    resource_version = "";
    labels = backend_labels;
    owner_references = [];
    deletion_timestamp = none;
  };
  replicas = none;
  template = record {
    labels = backend_labels;
    annotations = none;
    spec = record {
      host_network = false;
      termination_grace_period_seconds = none;
      affinity = none;
      tolerations = [];
      containers =
          record {
            name = default_http_backend_name;
            image = f.default_http_backend;
            image_pull_policy = "Always";
            resources = record {
              limits = some (("cpu", "50m") ∷ ("memory", "50Mi") ∷ []);
              requests = none;
            };
            ports = record { container_port = 80; protocol = "TCP" } ∷ [];
            env = [];
            args = [];
            readiness_probe = none;
            liveness_probe = none;
            privileged = none;
            volume_mounts = [];
          }
          ∷ [];
      volumes = [];
    };
  };
}

-- An object that is there already is no error.
created : Reply (Unit {0}) → Exec Call (Unit {0})
created (reply u) = pure tt
created (failed e) = if is_already_exists e then pure tt else fail e

-- `ensureDefaultHTTPBackend`; of the service only its namespace and name are kept.
unfoldable pub ensure_default_http_backend : Cluster → Nginx → Exec Call (Unit {0})
unfolding created
ensure_default_http_backend C f =
    let deploy = create_deployment default_http_backend_namespace (backend_deployment f) in
    let serve = create_service default_http_backend_namespace default_http_backend_name in
    attempt (call deploy (λ h. C.accepted h deploy))
    >>= created
    >> attempt (call serve (λ h. C.accepted h serve))
    >>= created
