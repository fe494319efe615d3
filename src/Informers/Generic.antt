-- ===== src/Informers/Generic.antt =====
-- pkg/informers/generic.go
pub mod Cases
use loadbalancer_controller.Common.{
  String, ◌<>◌, Option, none, some, List, [], ◌∷◌, Eq, eq_of_discrete, string_discrete,
}
use loadbalancer_controller.Common.Effects.{Error, message, Reply, reply, failed}
use loadbalancer_controller.Common.Table.{find}
use loadbalancer_controller.Informers.Factory.{Factory}

-- `schema.GroupVersionResource`
pub record Resource : Type 0 where
  pub group : String
  pub version : String
  pub resource : String

-- The methods of the factory, of its group and of its version that lead to an informer.
pub record Accessor : Type 0 where
  pub group_method : String
  pub version_method : String
  pub resource_method : String

Resource-discrete : Discrete Resource
unfolding string_discrete
Resource-discrete = hlevel string_discrete

Accessor-discrete : Discrete Accessor
unfolding string_discrete
Accessor-discrete = hlevel string_discrete

instance pub resource_eq : Eq Resource
unfolding Resource-discrete
resource_eq = eq_of_discrete Resource-discrete

instance pub accessor_eq : Eq Accessor
unfolding Accessor-discrete
accessor_eq = eq_of_discrete Accessor-discrete

-- `case v1.SchemeGroupVersion.WithResource("..."):`, and its accessor.
abbrev case : String → String → String → String → String → String → Resource × Accessor
case group version resource group_method version_method resource_method = (
  record { group = group; version = version; resource = resource },
  record {
    group_method = group_method;
    version_method = version_method;
    resource_method = resource_method;
  },
)

-- `genericInformer`, for the informers I.
pub record GenericInformer (I : Type 0) : Type 0 where
  pub informer : I
  pub resource : String × String

-- The cases of `ForResource`.
abbrev pub cases : List (Resource × Accessor)
cases =
    case "apps" "v1beta1" "deployments" "Apps" "V1beta1" "Deployments"
    ∷ case "apps" "v1beta1" "statefulsets" "Apps" "V1beta1" "StatefulSets"
    ∷ case "autoscaling" "v1" "horizontalpodautoscalers" "Autoscaling" "V1"
        "HorizontalPodAutoscalers"
    ∷ case "autoscaling" "v2alpha1" "horizontalpodautoscalers" "Autoscaling" "V2alpha1"
        "HorizontalPodAutoscalers"
    ∷ case "batch" "v1" "jobs" "Batch" "V1" "Jobs"
    ∷ case "batch" "v2alpha1" "cronjobs" "Batch" "V2alpha1" "CronJobs"
    ∷ case "certificates.k8s.io" "v1beta1" "certificatesigningrequests" "Certificates" "V1beta1"
        "CertificateSigningRequests"
    ∷ case "" "v1" "componentstatuses" "Core" "V1" "ComponentStatuses"
    ∷ case "" "v1" "configmaps" "Core" "V1" "ConfigMaps"
    ∷ case "" "v1" "endpoints" "Core" "V1" "Endpoints"
    ∷ case "" "v1" "events" "Core" "V1" "Events"
    ∷ case "" "v1" "limitranges" "Core" "V1" "LimitRanges"
    ∷ case "" "v1" "namespaces" "Core" "V1" "Namespaces"
    ∷ case "" "v1" "nodes" "Core" "V1" "Nodes"
    ∷ case "" "v1" "persistentvolumes" "Core" "V1" "PersistentVolumes"
    ∷ case "" "v1" "persistentvolumeclaims" "Core" "V1" "PersistentVolumeClaims"
    ∷ case "" "v1" "pods" "Core" "V1" "Pods"
    ∷ case "" "v1" "podtemplates" "Core" "V1" "PodTemplates"
    ∷ case "" "v1" "replicationcontrollers" "Core" "V1" "ReplicationControllers"
    ∷ case "" "v1" "resourcequotas" "Core" "V1" "ResourceQuotas"
    ∷ case "" "v1" "secrets" "Core" "V1" "Secrets"
    ∷ case "" "v1" "services" "Core" "V1" "Services"
    ∷ case "" "v1" "serviceaccounts" "Core" "V1" "ServiceAccounts"
    ∷ case "extensions" "v1beta1" "daemonsets" "Extensions" "V1beta1" "DaemonSets"
    ∷ case "extensions" "v1beta1" "deployments" "Extensions" "V1beta1" "Deployments"
    ∷ case "extensions" "v1beta1" "ingresses" "Extensions" "V1beta1" "Ingresses"
    ∷ case "extensions" "v1beta1" "podsecuritypolicies" "Extensions" "V1beta1" "PodSecurityPolicies"
    ∷ case "extensions" "v1beta1" "replicasets" "Extensions" "V1beta1" "ReplicaSets"
    ∷ case "extensions" "v1beta1" "thirdpartyresources" "Extensions" "V1beta1" "ThirdPartyResources"
    ∷ case "policy" "v1beta1" "poddisruptionbudgets" "Policy" "V1beta1" "PodDisruptionBudgets"
    ∷ case "rbac.authorization.k8s.io" "v1alpha1" "clusterroles" "Rbac" "V1alpha1" "ClusterRoles"
    ∷ case "rbac.authorization.k8s.io" "v1alpha1" "clusterrolebindings" "Rbac" "V1alpha1"
        "ClusterRoleBindings"
    ∷ case "rbac.authorization.k8s.io" "v1alpha1" "roles" "Rbac" "V1alpha1" "Roles"
    ∷ case "rbac.authorization.k8s.io" "v1alpha1" "rolebindings" "Rbac" "V1alpha1" "RoleBindings"
    ∷ case "rbac.authorization.k8s.io" "v1beta1" "clusterroles" "Rbac" "V1beta1" "ClusterRoles"
    ∷ case "rbac.authorization.k8s.io" "v1beta1" "clusterrolebindings" "Rbac" "V1beta1"
        "ClusterRoleBindings"
    ∷ case "rbac.authorization.k8s.io" "v1beta1" "roles" "Rbac" "V1beta1" "Roles"
    ∷ case "rbac.authorization.k8s.io" "v1beta1" "rolebindings" "Rbac" "V1beta1" "RoleBindings"
    ∷ case "settings.k8s.io" "v1alpha1" "podpresets" "Settings" "V1alpha1" "PodPresets"
    ∷ case "storage.k8s.io" "v1" "storageclasses" "Storage" "V1" "StorageClasses"
    ∷ case "storage.k8s.io" "v1beta1" "storageclasses" "Storage" "V1beta1" "StorageClasses"
    ∷ []

-- The first case that the resource is.
unfoldable pub accessor_of : Resource → Option Accessor
accessor_of r = find r cases

-- The error for a resource of no case.
abbrev pub no_informer : Resource → Error
no_informer r =
    message ("no informer found for " <> r.group <> "/" <> r.version <> ", Resource=" <> r.resource)

module _ {T I K Q : Type 0} (informer_at : Accessor → Factory T I K Q → Factory T I K Q × I) where
  -- What follows the `switch`; the informers of client-go ask the factory for theirs.
  unfoldable pub answer :
      Resource → Factory T I K Q → Option Accessor → Factory T I K Q × Reply (GenericInformer I)
  answer r f none = (f, failed (no_informer r))
  answer r f (some a) =
      let (f', i) = informer_at a f in
      (f', reply (record { informer = i; resource = (r.group, r.resource) }))

  -- `ForResource`
  unfoldable pub for_resource :
      Resource → Factory T I K Q → Factory T I K Q × Reply (GenericInformer I)
  unfolding answer accessor_of
  for_resource r f = answer r f (accessor_of r)
