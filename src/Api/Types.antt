-- ===== src/Api/Types.antt =====
-- pkg/apis/networking/v1alpha1/types.go
use loadbalancer_controller.Common.{ℕ, String, Bool, Option, List}
use loadbalancer_controller.Common.GoMap.{GoMap}
use loadbalancer_controller.Api.Objects.{ObjectMeta, Resources}

-- `names` is nil or a slice.
pub record NodesSpec : Type 0 where
  pub replicas : Option ℕ
  pub names : Option (List String)
  pub effect : Option String

pub record ProxySpec : Type 0 where
  pub kind : String
  pub config : GoMap
  pub resources : Resources

pub record ServiceProvider : Type 0 where
  pub name : String

pub record IpvsdrProvider : Type 0 where
  pub vip : String
  pub scheduler : String

pub record AliyunProvider : Type 0 where
  pub name : String

pub record AzureProvider : Type 0 where
  pub name : String

pub record ProvidersSpec : Type 0 where
  pub service : Option ServiceProvider
  pub ipvsdr : Option IpvsdrProvider
  pub aliyun : Option AliyunProvider
  pub azure : Option AzureProvider

pub record LoadBalancerSpec : Type 0 where
  pub kind : String
  pub nodes : NodesSpec
  pub proxy : ProxySpec
  pub providers : ProvidersSpec

pub record PodStatus : Type 0 where
  pub name : String
  pub ready : Bool
  pub restart_count : ℕ
  pub ready_containers : ℕ
  pub total_containers : ℕ
  pub node_name : String
  pub reason : String
  pub message : String

pub record PodStatuses : Type 0 where
  pub replicas : ℕ
  pub total_replicas : ℕ
  pub ready_replicas : ℕ
  pub statuses : List PodStatus

pub record ProxyStatus : Type 0 where
  pub pod_statuses : PodStatuses
  pub deployment : String
  pub ingress_class : String
  pub config_map : String
  pub tcp_config_map : String
  pub udp_config_map : String

-- A `vrid` is an `int`: -1, which stands for one that is not valid, a natural number n, or -n - 2.
pub data Vrid : Type 0 where
  minus_one : Vrid
  at below : ℕ → Vrid

pub record IpvsdrProviderStatus : Type 0 where
  pub pod_statuses : PodStatuses
  pub deployment : String
  pub vip : String
  pub vrid : Option Vrid

-- These three have no fields.
abbrev pub ServiceProviderStatus : Type 0
ServiceProviderStatus = Unit

abbrev pub AliyunProviderStatus : Type 0
AliyunProviderStatus = Unit

abbrev pub AzureProviderStatus : Type 0
AzureProviderStatus = Unit

pub record ProvidersStatuses : Type 0 where
  pub service : Option ServiceProviderStatus
  pub ipvsdr : Option IpvsdrProviderStatus
  pub aliyun : Option AliyunProviderStatus
  pub azure : Option AzureProviderStatus

pub record LoadBalancerStatus : Type 0 where
  pub proxy_status : ProxyStatus
  pub providers_statuses : ProvidersStatuses

pub record LoadBalancer : Type 0 where
  pub meta : ObjectMeta
  pub open meta use *
  pub spec : LoadBalancerSpec
  pub status : LoadBalancerStatus

-- `LoadBalancerList`, without the version of the list.
pub record LoadBalancerList : Type 0 where
  pub items : List LoadBalancer
