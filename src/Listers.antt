-- ===== src/Listers.antt =====
-- pkg/listers/networking/v1alpha1/loadbalancer.go and loadbalancer_expansion.go
pub mod Cache
use loadbalancer_controller.Common.{
  String, ◌<>◌, Option, none, some, List, [], ◌∷◌, is_empty, keep_if,
}
use loadbalancer_controller.Common.{string_eq, if◌then◌else◌}
use loadbalancer_controller.Common.Effects.{not_found, message, Reply, reply, failed}
use loadbalancer_controller.Common.GoMap.{entries}
use loadbalancer_controller.Api.{ObjectMeta, LoadBalancer, label_key_created_by, created_by}
use loadbalancer_controller.Cluster.{Cluster, Library, Call}

found : Reply (Option LoadBalancer) → Reply LoadBalancer
found (failed e) = failed e
found (reply none) = failed not_found
found (reply (some lb)) = reply lb

-- The labels of what a load balancer has created.
abbrev pub created_by_label : LoadBalancer → String × String
created_by_label lb = (label_key_created_by, created_by lb.namespace lb.name)

module _ (C : Cluster) (L : Library) (h : List Call) where
  -- `LoadBalancers(namespace).Get(name)`
  unfoldable pub get_lb_cached : String → String → Reply LoadBalancer
  unfolding found
  get_lb_cached namespace name = found (C.indexed_lb h (namespace <> "/" <> name))

  -- The loop of `GetLoadBalancersForControllee`.
  unfoldable pub creators : ObjectMeta → List LoadBalancer → List LoadBalancer
  creators m = keep_if (λ lb. L.matches (some (created_by_label lb ∷ [])) m.labels)

  some_creators : ObjectMeta → List LoadBalancer → Reply (List LoadBalancer)
  some_creators m [] =
      failed
        (message ("could not find loadbalancer for " <> m.name <> " in namespace " <> m.namespace))
  some_creators m (lb ∷ lbs) = reply (lb ∷ lbs)

  creators_in : ObjectMeta → Reply (List LoadBalancer) → Reply (List LoadBalancer)
  unfolding creators some_creators
  creators_in m (failed e) = failed e
  creators_in m (reply lbs) = some_creators m (creators m lbs)

  -- `GetLoadBalancersForControllee`, for an object with this metadata. The texts of the errors
  -- leave out the object's kind and labels.
  unfoldable pub get_load_balancers_for_controllee : ObjectMeta → Reply (List LoadBalancer)
  unfolding creators_in
  get_load_balancers_for_controllee m =
      if is_empty (entries m.labels)
      then failed (
          message
            ("no loadbalancers found for daemonset " <> m.name <> " because it has no labels"))
      else creators_in m (C.cached_lbs h m.namespace)
