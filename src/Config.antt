-- ===== src/Config.antt =====
-- config/config.go and cmd/controller/options.go
pub mod Repeated
use loadbalancer_controller.Common.{
  String, Bool, true, false, Option, none, some, List, [], ◌∷◌, ◌++◌,
}
use loadbalancer_controller.Common.Split.{split, join}
use loadbalancer_controller.Toleration.{add_additional_toleration_keys}

abbrev default_ipvsdr_image : String
default_ipvsdr_image = "cargo.caicloud.io/caicloud/loadbalancer-provider-ipvsdr:v0.2.0"

abbrev default_http_backend_image : String
default_http_backend_image = "cargo.caicloud.io/caicloud/default-http-backend:v0.1.0"

abbrev default_nginx_ingress_image : String
default_nginx_ingress_image = "cargo.caicloud.io/caicloud/nginx-ingress-controller:0.9.0-beta.11"

abbrev default_ingress_sidecar_image : String
default_ingress_sidecar_image = "cargo.caicloud.io/caicloud/ingress-controller-sidecar:v0.2.1"

-- `additionalTolerations`, beside the global list `tolerationKeys`.
abbrev pub AdditionalTolerations : Type 0
AdditionalTolerations = List String

-- What follows `strings.Split` in `Set`.
unfoldable pub add_values :
    AdditionalTolerations × List String → List String → AdditionalTolerations × List String
add_values (a, keys) [] = (a, keys)
add_values (a, keys) (v ∷ vs) = (a ++ v ∷ vs, add_additional_toleration_keys (a ++ v ∷ vs) keys)

-- `Set`, which has no error.
unfoldable pub set_tolerations :
    String → AdditionalTolerations × List String → AdditionalTolerations × List String
unfolding add_values
set_tolerations value w = add_values w (split "," value)

-- `String`
abbrev pub tolerations_string : AdditionalTolerations → String
tolerations_string = join ","

-- `IngressSidecar`, `ProxyNginx` and `ProviderIpvsdr` have one field each.
pub record Image : Type 0 where
  pub image : String

pub record Proxies : Type 0 where
  pub default_http_backend : String
  pub default_ssl_certificate : String
  pub sidecar : Image
  pub nginx : Image

pub record Providers : Type 0 where
  pub ipvsdr : Image

-- `Configuration`, for the clients K and Q, which are nil at first.
pub record Configuration (K Q : Type 0) : Type 0 where
  pub client : Option K
  pub tpr_client : Option Q
  pub additional_tolerations : AdditionalTolerations
  pub proxies : Proxies
  pub providers : Providers

-- `Options`
pub record Options (K Q : Type 0) : Type 0 where
  pub kubeconfig : String
  pub debug : Bool
  pub cfg : Configuration K Q

module _ {K Q : Type 0} where
  -- `NewOptions`: Go's zero values.
  abbrev pub new_options : Options K Q
  new_options = record {
    kubeconfig = "";
    debug = false;
    cfg = record {
      client = none;
      tpr_client = none;
      additional_tolerations = [];
      proxies = record {
        default_http_backend = "";
        default_ssl_certificate = "";
        sidecar = record { image = "" };
        nginx = record { image = "" };
      };
      providers = record { ipvsdr = record { image = "" } };
    };
  }

-- The values of a program S that flags set: a `cli.GenericFlag` appends, a `cli.StringFlag` has a
-- default, and a `cli.BoolFlag` is false by default.
pub data Destination (S : Type 0) : Type 0 where
  generic : (String → S → S) → Destination S
  text : String → (String → S → S) → Destination S
  switch : (Bool → S → S) → Destination S

-- A flag: its name, the environment variable that sets it too, and what it sets.
pub record Flag (S : Type 0) : Type 0 where
  pub name : String
  pub env_var : String
  pub destination : Destination S

module _ {K Q : Type 0} where
  set_additional : String → Configuration K Q × List String → Configuration K Q × List String
  unfolding set_tolerations
  set_additional value (c, keys) =
      let (a, keys') = set_tolerations value (c.additional_tolerations, keys) in
      (record c { additional_tolerations = a }, keys')

  -- The flags of `AddFlags` of the configuration, which set it and the global keys.
  unfoldable pub configuration_flags : List (Flag (Configuration K Q × List String))
  unfolding set_additional
  configuration_flags =
      record {
        name = "additional-tolerations";
        env_var = "ADDITIONAL_TOLERATIONS";
        destination = generic set_additional;
      }
      ∷ record {
        name = "default-http-backend";
        env_var = "DEFAULT_HTTP_BACKEND";
        destination = text default_http_backend_image (λ v s.
            (record s.0 { proxies = record s.0.proxies { default_http_backend = v } }, s.1));
      }
      ∷ record {
        name = "default-ssl-certificate";
        env_var = "DEFAULT_SSL_CERTIFICATE";
        destination = text "" (λ v s.
            (record s.0 { proxies = record s.0.proxies { default_ssl_certificate = v } }, s.1));
      }
      ∷ record {
        name = "proxy-sidecar";
        env_var = "PROXY_SIDECAR";
        destination = text default_ingress_sidecar_image (λ v s.
            (record s.0 { proxies = record s.0.proxies { sidecar = record { image = v } } }, s.1));
      }
      ∷ record {
        name = "proxy-nginx";
        env_var = "PROXY_NGINX";
        destination = text default_nginx_ingress_image (λ v s.
            (record s.0 { proxies = record s.0.proxies { nginx = record { image = v } } }, s.1));
      }
      ∷ record {
        name = "provider-ipvsdr";
        env_var = "PROVIDER_IPVS_DR";
        destination =
            text default_ipvsdr_image
              (λ v s. (record s.0 { providers = record { ipvsdr = record { image = v } } }, s.1));
      }
      ∷ []
