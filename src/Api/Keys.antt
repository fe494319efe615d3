-- ===== src/Api/Keys.antt =====
-- pkg/apis/networking/v1alpha1/known_keys.go and register.go
use loadbalancer_controller.Common.{String, ◌<>◌}

abbrev pub load_balancer_name : String
load_balancer_name = "loadbalancer"

abbrev pub alpha_group_name : String
alpha_group_name = "net.alpha.caicloud.io"

abbrev pub version : String
version = "v1alpha1"

abbrev pub load_balancer_kind : String
load_balancer_kind = "LoadBalancer"

abbrev pub load_balancer_type_internal : String
load_balancer_type_internal = "internal"

abbrev pub load_balancer_type_external : String
load_balancer_type_external = "external"

abbrev pub proxy_type_nginx : String
proxy_type_nginx = "nginx"

abbrev pub proxy_type_haproxy : String
proxy_type_haproxy = "haproxy"

abbrev pub proxy_type_traefik : String
proxy_type_traefik = "traefik"

-- `schema.GroupVersion` and `schema.GroupResource`
pub record GroupVersion : Type 0 where
  pub group : String
  pub version : String

pub record GroupResource : Type 0 where
  pub group : String
  pub resource : String

-- `SchemeGroupVersion`
abbrev pub scheme_group_version : GroupVersion
scheme_group_version = record { group = alpha_group_name; version = version }

-- `Resource`
unfoldable pub resource : String → GroupResource
resource name = record { group = scheme_group_version.group; resource = name }

abbrev pub label_key_proxy : String
label_key_proxy = load_balancer_name <> "." <> alpha_group_name <> "/" <> "proxy"

abbrev pub label_key_provider : String
label_key_provider = load_balancer_name <> "." <> alpha_group_name <> "/" <> "provider"

abbrev pub label_key_created_by : String
label_key_created_by = load_balancer_name <> "." <> alpha_group_name <> "/created-by"

abbrev pub taint_key : String
taint_key = load_balancer_name <> "." <> alpha_group_name <> "/dedicated"

-- `LabelValueFormatCreateby` and `TaintValueFormat`, both "%s.%s"
unfoldable pub created_by : String → String → String
created_by namespace name = namespace <> "." <> name

unfoldable pub taint_value : String → String → String
taint_value namespace name = namespace <> "." <> name

-- `UniqueLabelKeyFormat`
unfoldable pub unique_label_key : String → String → String
unique_label_key namespace name =
    load_balancer_name <> "." <> alpha_group_name <> "/" <> namespace <> "." <> name
