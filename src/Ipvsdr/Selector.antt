-- ===== src/Ipvsdr/Selector.antt =====
-- The labels and the filter of provider/providers/ipvsdr/ipvsdr.go, and the plugin's entry.
use loadbalancer_controller.Common.{String, Bool, not, ◌&&◌, some}
use loadbalancer_controller.Common.{[], ◌∷◌, is_some, ◌==◌, string_eq, nat_eq}
use loadbalancer_controller.Common.{if◌then◌else◌}
use loadbalancer_controller.Common.Effects.{Exec, pure}
use loadbalancer_controller.Common.GoMap.{GoMap}
use loadbalancer_controller.Api.{
  ObjectMeta, LoadBalancer, label_key_created_by, label_key_provider, created_by, Deployment, Pod,
  load_balancer_type_external,
}
use loadbalancer_controller.Cluster.{Cluster, Library, Call, load_balancer, ipvsdr_queue}
use loadbalancer_controller.Helper.{Helper, new_helper_for_key_func, passthrough_key_func, enqueue}

abbrev pub provider_name : String
provider_name = "ipvsdr"

abbrev pub provider_name_suffix : String
provider_name_suffix = "-provider-ipvsdr"

-- The image of the configuration: the field that `Init` sets.
pub record Ipvsdr : Type 0 where
  pub image : String

abbrev pub ipvsdr_helper : Helper
ipvsdr_helper = new_helper_for_key_func ipvsdr_queue passthrough_key_func

-- `selector`
abbrev pub selector : LoadBalancer → GoMap
selector lb = some (
    (label_key_created_by, created_by lb.namespace lb.name)
    ∷ (label_key_provider, provider_name)
    ∷ [])

-- `filteredByLabel`
unfoldable pub filtered_by_label : Library → ObjectMeta → Bool
filtered_by_label L m = not (L.matches (some ((label_key_provider, provider_name) ∷ [])) m.labels)

-- `deploymentFiltered`
abbrev pub deployment_filtered : Library → Deployment → Bool
deployment_filtered L d = filtered_by_label L d.meta

-- `podFiltered`
abbrev pub pod_filtered : Library → Pod → Bool
pod_filtered L p = filtered_by_label L p.meta

-- `OnSync`
unfoldable pub on_sync : Cluster → LoadBalancer → Exec Call (Unit {0})
on_sync C lb =
    if not (lb.spec.kind == load_balancer_type_external) && is_some lb.spec.providers.ipvsdr
    then pure tt
    else enqueue C ipvsdr_helper (load_balancer lb)
