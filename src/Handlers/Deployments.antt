-- ===== src/Handlers/Deployments.antt =====
-- EventHandlerForDeployment of pkg/util/lb/event_handler.go.
pub mod Updates
pub mod Events
use loadbalancer_controller.Common.{String, Bool, true, false, not, ◌&&◌, ◌||◌, Option, none, some}
use loadbalancer_controller.Common.{
  List, [], ◌∷◌, is_empty, is_some, ◌==◌, string_eq, if◌then◌else◌,
}
use loadbalancer_controller.Common.Effects.{
  Reply, reply, failed, Exec, pure, crash, observe, for_each, ok, ◌>>=◌, ◌>>◌,
}
use loadbalancer_controller.Common.GoMap.{deep_equal}
use loadbalancer_controller.Api.{
  ObjectMeta, OwnerReference, LoadBalancer, Deployment, load_balancer_kind, owner_reference_eq,
}
use loadbalancer_controller.Cluster.{
  Cluster, Library, Call, Obj, load_balancer, deployment, pod, tombstone, other,
}
use loadbalancer_controller.Helper.{Helper, enqueue}
use loadbalancer_controller.Listers.{get_lb_cached, get_load_balancers_for_controllee}

-- `EventHandlerForDeployment`; its listers are the cluster's.
pub record DeploymentHandler : Type 0 where
  pub helper : Helper
  pub filtered : Deployment → Bool

-- `NewEventHandlerForDeployment`
abbrev pub new_event_handler_for_deployment : Helper → (Deployment → Bool) → DeploymentHandler
new_event_handler_for_deployment helper filter_func = record {
  helper = helper;
  filtered = filter_func;
}

same_uid : OwnerReference → Reply LoadBalancer → Option LoadBalancer
same_uid ref (failed e) = none
same_uid ref (reply lb) = if lb.uid == ref.uid then some lb else none

module _ (C : Cluster) (L : Library) where
  -- `resolveControllerRef`; `none` is a nil load balancer.
  unfoldable pub resolve_controller_ref : String → OwnerReference → List Call → Option LoadBalancer
  unfolding same_uid
  resolve_controller_ref namespace ref h =
      if ref.kind == load_balancer_kind
      then same_uid ref (get_lb_cached C L h namespace ref.name)
      else none

  -- An error of the lister, or no load balancer, gives the nil list.
  or_nil : Reply (List LoadBalancer) → List LoadBalancer
  or_nil (failed e) = []
  or_nil (reply lbs) = lbs

  -- `GetLoadBalancersForDeplyments`
  unfoldable pub get_load_balancers_for_deployments : Deployment → List Call → List LoadBalancer
  unfolding or_nil
  get_load_balancers_for_deployments d h = or_nil (get_load_balancers_for_controllee C L h d.meta)

  module _ (eh : DeploymentHandler) where
    abbrev enqueue_lb : LoadBalancer → Exec Call (Unit {0})
    enqueue_lb lb = enqueue C eh.helper (load_balancer lb)

    -- Enqueue the load balancer, if there is one.
    unfoldable pub enqueue_found : Option LoadBalancer → Exec Call (Unit {0})
    enqueue_found none h = pure tt h
    enqueue_found (some lb) h = enqueue_lb lb h

    -- Enqueue the load balancer that the controller reference resolves to.
    unfoldable pub enqueue_controller : String → OwnerReference → Exec Call (Unit {0})
    unfolding enqueue_found
    enqueue_controller namespace ref h = enqueue_found (resolve_controller_ref namespace ref h) h

    -- Enqueue all load balancers that may want the orphan.
    unfoldable pub enqueue_orphan : Deployment → Exec Call (Unit {0})
    unfolding for_each
    enqueue_orphan d h = for_each (get_load_balancers_for_deployments d h) enqueue_lb h

    -- The controller's load balancer if there is one, and nothing for an orphan.
    owner_only : Deployment → Option OwnerReference → Exec Call (Unit {0})
    unfolding enqueue_controller
    owner_only d none h = pure tt h
    owner_only d (some ref) h = enqueue_controller d.namespace ref h

    owner_or_orphan : Deployment → Option OwnerReference → Exec Call (Unit {0})
    unfolding enqueue_controller enqueue_orphan
    owner_or_orphan d none h = enqueue_orphan d h
    owner_or_orphan d (some ref) h = enqueue_controller d.namespace ref h

    -- `OnDelete` once the deployment is known.
    unfoldable pub on_delete_deployment : Deployment → Exec Call (Unit {0})
    unfolding owner_only
    on_delete_deployment d =
        if eh.filtered d then pure tt else owner_only d (L.get_controller_of d.meta)

    -- `OnDelete`
    unfoldable pub on_delete : Obj → Exec Call (Unit {0})
    unfolding on_delete_deployment
    on_delete (deployment d) = on_delete_deployment d
    on_delete (tombstone (deployment d)) = on_delete_deployment d
    on_delete o = pure tt

    -- `OnAdd`; an object of another type makes the type assertion panic.
    unfoldable pub on_add : Obj → Exec Call (Unit {0})
    unfolding on_delete owner_or_orphan
    on_add (deployment d) =
        if is_some d.deletion_timestamp
        then on_delete (deployment d)
        else if eh.filtered d
        then pure tt
        else owner_or_orphan d (L.get_controller_of d.meta)
    on_add o = crash

    -- The part of `OnUpdate` for the old controller.
    unfoldable pub update_old : Deployment → Option OwnerReference → Bool → Exec Call (Unit {0})
    unfolding owner_only
    update_old old ref ref_changed =
        if not (eh.filtered old) && is_some old.deletion_timestamp
        then if ref_changed then owner_only old ref else pure tt
        else pure tt

    -- The part for the current controller, or the orphan.
    owner_or_changed : Deployment → Option OwnerReference → Bool → Exec Call (Unit {0})
    unfolding enqueue_controller enqueue_orphan
    owner_or_changed cur none changed h = (if changed then enqueue_orphan cur else pure tt) h
    owner_or_changed cur (some ref) changed h = enqueue_controller cur.namespace ref h

    unfoldable pub update_current : Deployment → Option OwnerReference → Bool → Exec Call (Unit {0})
    unfolding owner_or_changed
    update_current cur ref changed =
        if not (eh.filtered cur) && is_some cur.deletion_timestamp
        then owner_or_changed cur ref changed
        else pure tt

    -- `OnUpdate` for two deployments.
    unfoldable pub update_deployment : Deployment → Deployment → Exec Call (Unit {0})
    unfolding update_old update_current
    update_deployment old cur =
        let old_ref = L.get_controller_of old.meta in
        let cur_ref = L.get_controller_of cur.meta in
        let ref_changed = not (cur_ref == old_ref) in
        let label_changed = not (deep_equal cur.labels old.labels) in
        if old.resource_version == cur.resource_version
        then pure tt
        else if eh.filtered old && eh.filtered cur
        then pure tt
        else update_old old old_ref ref_changed
          >> update_current cur cur_ref (label_changed || ref_changed)

    -- `OnUpdate`
    unfoldable pub on_update : Obj → Obj → Exec Call (Unit {0})
    unfolding update_deployment
    on_update (deployment old) (deployment cur) = update_deployment old cur
    on_update o o' = crash
