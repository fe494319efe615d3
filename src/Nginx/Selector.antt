-- ===== src/Nginx/Selector.antt =====
-- The labels and the filter of proxy/proxies/nginx/nginx.go, and the plugin's entry.
use loadbalancer_controller.Common.{String, Bool, not, some}
use loadbalancer_controller.Common.{[], ◌∷◌, ◌==◌, string_eq, nat_eq}
use loadbalancer_controller.Common.{if◌then◌else◌}
use loadbalancer_controller.Common.Effects.{Exec, pure}
use loadbalancer_controller.Common.GoMap.{GoMap}
use loadbalancer_controller.Api.{
  ObjectMeta, LoadBalancer, label_key_created_by, label_key_proxy, created_by, proxy_type_nginx,
  Deployment, Pod,
}
use loadbalancer_controller.Cluster.{Cluster, Library, Call, load_balancer, nginx_queue}
use loadbalancer_controller.Helper.{Helper, new_helper_for_key_func, passthrough_key_func, enqueue}

abbrev pub proxy_name : String
proxy_name = "nginx"

abbrev pub proxy_name_suffix : String
proxy_name_suffix = "-proxy-nginx"

-- The images and names of the configuration: the fields that `Init` sets.
pub record Nginx : Type 0 where
  pub image : String
  pub sidecar : String
  pub default_http_backend : String
  pub default_ssl_certificate : String

abbrev pub nginx_helper : Helper
nginx_helper = new_helper_for_key_func nginx_queue passthrough_key_func

-- `selector`
abbrev pub selector : LoadBalancer → GoMap
selector lb =
    some
      ((label_key_created_by, created_by lb.namespace lb.name) ∷ (label_key_proxy, proxy_name) ∷ [])

-- `filteredByLabel`
unfoldable pub filtered_by_label : Library → ObjectMeta → Bool
filtered_by_label L m = not (L.matches (some ((label_key_proxy, proxy_name) ∷ [])) m.labels)

-- `deploymentFiltered`
abbrev pub deployment_filtered : Library → Deployment → Bool
deployment_filtered L d = filtered_by_label L d.meta

-- `podFiltered`
abbrev pub pod_filtered : Library → Pod → Bool
pod_filtered L p = filtered_by_label L p.meta

-- `OnSync`
unfoldable pub on_sync : Cluster → LoadBalancer → Exec Call (Unit {0})
on_sync C lb =
    if lb.spec.proxy.kind == proxy_type_nginx
    then enqueue C nginx_helper (load_balancer lb)
    else pure tt
