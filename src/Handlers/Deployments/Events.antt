-- ===== src/Handlers/Deployments/Events.antt =====
-- The additions and deletions of deployments, from pkg/util/lb/event_handler.go to
-- the queue.
use loadbalancer_controller.Common.{Bool, true, ◌==◌, string_eq, some, List, [], ◌∷◌, ◌≡◌}
use loadbalancer_controller.Common.Effects.{reply}
use loadbalancer_controller.Api.{LoadBalancer, Deployment, OwnerReference, load_balancer_kind}
use loadbalancer_controller.Cluster.{Cluster, Library, Call, Queue, load_balancer, add}
use loadbalancer_controller.Helper.{new_helper_for_key_func, passthrough_key_func}
use loadbalancer_controller.Listers.{get_lb_cached}
use loadbalancer_controller.Handlers.Deployments.{
  DeploymentHandler, new_event_handler_for_deployment,
}

-- The deployment's controller is the load balancer that the lister has by the name in the reference.
pub record IsControlledBy (C : Cluster) (L : Library) (h : List Call) (fresh : LoadBalancer)
    (d : Deployment) : Type 0 where
  pub ref : OwnerReference
  pub controller : L.get_controller_of d.meta ≡ some ref
  pub right_kind : (ref.kind == load_balancer_kind) ≡ true
  pub listed : get_lb_cached C L h d.namespace ref.name ≡ reply fresh
  pub same_uid : (fresh.uid == ref.uid) ≡ true

-- The handler of a plugin with this queue and this filter.
abbrev pub handler : Queue → (Deployment → Bool) → DeploymentHandler
handler queue filter_func =
    new_event_handler_for_deployment (new_helper_for_key_func queue passthrough_key_func)
      filter_func

-- The calls that put the load balancers on the queue, in their order, after those made before.
abbrev pub enqueued : Queue → List LoadBalancer → List Call → List Call
enqueued queue [] h = h
enqueued queue (lb ∷ lbs) h = enqueued queue lbs (add queue (load_balancer lb) ∷ h)
