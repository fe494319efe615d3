-- ===== src/Api/Objects.antt =====
-- The objects of the Kubernetes API, with the fields that the controller reads or writes.
-- A Go pointer is an `Option`. An `int32` is its bit pattern, a number below 2 ^ 32.
use loadbalancer_controller.Common.{ℕ, String, Bool, Option, List, ◌%◌, ◌^◌}
use loadbalancer_controller.Common.GoMap.{GoMap}

abbrev pub int32 : ℕ → ℕ
int32 n = n % 2 ^ 32

pub record OwnerReference : Type 0 where
  pub api_version : String
  pub kind : String
  pub name : String
  pub uid : String
  pub controller : Option Bool
  pub block_owner_deletion : Option Bool

pub record ObjectMeta : Type 0 where
  pub name : String
  pub namespace : String
  pub uid : String
  pub resource_version : String
  pub labels : GoMap
  pub owner_references : List OwnerReference
  pub deletion_timestamp : Option ℕ

pub record Taint : Type 0 where
  pub key : String
  pub value : String
  pub effect : String

-- `taints` is nil or a slice: `reflect.DeepEqual` tells the nil slice from the empty one.
pub record Node : Type 0 where
  pub meta : ObjectMeta
  pub open meta use *
  pub taints : Option (List Taint)

-- Limits by resource name, and requests.
pub record Resources : Type 0 where
  pub limits : GoMap
  pub requests : GoMap

-- A variable's value is a text, or the path of a field of the pod.
pub data EnvValue : Type 0 where
  text : String → EnvValue
  field_ref : String → EnvValue

pub record EnvVar : Type 0 where
  pub name : String
  pub value : EnvValue

pub record HttpGet : Type 0 where
  pub path : String
  pub port : ℕ
  pub scheme : String

pub record VolumeMount : Type 0 where
  pub name : String
  pub mount_path : String
  pub read_only : Bool

-- A volume on a path of the host.
pub record Volume : Type 0 where
  pub name : String
  pub host_path : String

pub record ContainerPort : Type 0 where
  pub container_port : ℕ
  pub protocol : String

pub record Container : Type 0 where
  pub name : String
  pub image : String
  pub image_pull_policy : String
  pub resources : Resources
  pub ports : List ContainerPort
  pub env : List EnvVar
  pub args : List String
  pub readiness_probe : Option HttpGet
  pub liveness_probe : Option HttpGet
  pub privileged : Option Bool
  pub volume_mounts : List VolumeMount

pub record NodeSelectorRequirement : Type 0 where
  pub key : String
  pub operator : String
  pub values : List String

-- The required node selector: a list of terms, each a list of match expressions.
pub record NodeAffinity : Type 0 where
  pub required : List (List NodeSelectorRequirement)

pub record PodAffinityTerm : Type 0 where
  pub match_labels : GoMap
  pub topology_key : String

pub record Affinity : Type 0 where
  pub node_affinity : Option NodeAffinity
  pub pod_anti_affinity : Option (List PodAffinityTerm)

pub record Toleration : Type 0 where
  pub key : String
  pub operator : String

pub record PodSpec : Type 0 where
  pub host_network : Bool
  pub termination_grace_period_seconds : Option ℕ
  pub affinity : Option Affinity
  pub tolerations : List Toleration
  pub containers : List Container
  pub volumes : List Volume

pub record PodTemplate : Type 0 where
  pub labels : GoMap
  pub annotations : GoMap
  pub spec : PodSpec

pub record Deployment : Type 0 where
  pub meta : ObjectMeta
  pub open meta use *
  pub replicas : Option ℕ
  pub template : PodTemplate

pub record DaemonSet : Type 0 where
  pub meta : ObjectMeta
  pub open meta use *

pub record Terminated : Type 0 where
  pub reason : String
  pub signal : ℕ
  pub exit_code : ℕ

-- `waiting` holds its reason.
pub record ContainerStatus : Type 0 where
  pub restart_count : ℕ
  pub ready : Bool
  pub waiting : Option String
  pub running : Bool
  pub terminated : Option Terminated

pub record Pod : Type 0 where
  pub meta : ObjectMeta
  pub open meta use *
  pub node_name : String
  pub containers : List Container
  pub phase : String
  pub reason : String
  pub container_statuses : List ContainerStatus

pub record ConfigMap : Type 0 where
  pub name : String
  pub labels : GoMap
  pub contents : GoMap

pub record Ingress : Type 0 where
  pub name : String
  pub namespace : String
