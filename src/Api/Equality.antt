-- ===== src/Api/Equality.antt =====
-- `==` and `reflect.DeepEqual` on the data.
use loadbalancer_controller.Common.{Option, List, Eq, eq_of_discrete, string_discrete}
use loadbalancer_controller.Api.Objects.{OwnerReference, NodeAffinity, Taint}
use loadbalancer_controller.Api.Types.{PodStatus, Vrid, ProvidersSpec, NodesSpec}
use native.Mathlib.Decide.{ℕ_discrete}

unfoldable pub OwnerReference-discrete : Discrete (Option OwnerReference)
unfolding string_discrete
OwnerReference-discrete = hlevel string_discrete

unfoldable pub NodeAffinity-discrete : Discrete (Option NodeAffinity)
unfolding string_discrete
NodeAffinity-discrete = hlevel string_discrete

unfoldable pub Taints-discrete : Discrete (Option (List Taint))
unfolding string_discrete
Taints-discrete = hlevel string_discrete

unfoldable pub PodStatus-discrete : Discrete PodStatus
unfolding string_discrete
PodStatus-discrete = hlevel (string_discrete, ℕ_discrete)

unfoldable pub Vrid-discrete : Discrete (Option Vrid)
Vrid-discrete = hlevel (ℕ_discrete)

unfoldable pub NodesSpec-discrete : Discrete NodesSpec
unfolding string_discrete
NodesSpec-discrete = hlevel (string_discrete, ℕ_discrete)

unfoldable pub ProvidersSpec-discrete : Discrete ProvidersSpec
unfolding string_discrete
ProvidersSpec-discrete = hlevel string_discrete

instance abbrev pub owner_reference_eq : Eq (Option OwnerReference)
owner_reference_eq = eq_of_discrete OwnerReference-discrete

instance abbrev pub node_affinity_eq : Eq (Option NodeAffinity)
node_affinity_eq = eq_of_discrete NodeAffinity-discrete

instance abbrev pub taints_eq : Eq (Option (List Taint))
taints_eq = eq_of_discrete Taints-discrete

instance abbrev pub pod_status_eq : Eq PodStatus
pod_status_eq = eq_of_discrete PodStatus-discrete

instance abbrev pub vrid_eq : Eq (Option Vrid)
vrid_eq = eq_of_discrete Vrid-discrete

instance abbrev pub nodes_spec_eq : Eq NodesSpec
nodes_spec_eq = eq_of_discrete NodesSpec-discrete

instance abbrev pub providers_spec_eq : Eq ProvidersSpec
providers_spec_eq = eq_of_discrete ProvidersSpec-discrete
