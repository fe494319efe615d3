-- ===== src/Handlers/Pods.antt =====
-- EventHandlerForSyncStatusWithPod of pkg/util/lb/event_handler.go.
pub mod Owner
pub mod Events
use loadbalancer_controller.Common.{String, Bool, true, false, not, ◌&&◌, ◌||◌, Option, none, some}
use loadbalancer_controller.Common.{List, is_some, ◌==◌, string_eq, if◌then◌else◌}
use loadbalancer_controller.Common.Effects.{Reply, reply, failed, Exec, pure, crash, ◌>>◌}
use loadbalancer_controller.Common.GoMap.{get}
use loadbalancer_controller.Api.{LoadBalancer, Pod, label_key_created_by}
use loadbalancer_controller.Cluster.{Cluster, Library, Call, Obj, load_balancer, pod, tombstone}
use loadbalancer_controller.Helper.{Helper, enqueue, enqueue_after}
use loadbalancer_controller.Listers.{get_lb_cached}
use loadbalancer_controller.LbUtil.{split_namespace_and_name_by_dot}

-- `EventHandlerForSyncStatusWithPod`
pub record PodHandler : Type 0 where
  pub helper : Helper
  pub filtered : Pod → Bool

-- `NewEventHandlerForSyncStatusWithPod`
abbrev pub new_event_handler_for_sync_status_with_pod : Helper → (Pod → Bool) → PodHandler
new_event_handler_for_sync_status_with_pod helper filter_func = record {
  helper = helper;
  filtered = filter_func;
}

abbrev pub fetched : Reply LoadBalancer → Option LoadBalancer
fetched (reply lb) = some lb
fetched (failed e) = none

module _ (C : Cluster) (L : Library) where
  of_names : Reply (String × String) → List Call → Option LoadBalancer
  of_names (failed e) h = none
  of_names (reply (namespace, name)) h = fetched (get_lb_cached C L h namespace name)

  of_label : Option String → List Call → Option LoadBalancer
  unfolding of_names
  of_label none h = none
  of_label (some v) h = of_names (split_namespace_and_name_by_dot L.quote v) h

  -- `getLoadbalancerForPod`
  unfoldable pub get_loadbalancer_for_pod : Pod → List Call → Option LoadBalancer
  unfolding of_label
  get_loadbalancer_for_pod p h = of_label (get label_key_created_by p.labels) h

  -- The load balancer of the pod has gone, or is another one.
  abbrev lb_changed : LoadBalancer → Option LoadBalancer → Bool
  lb_changed old none = true
  lb_changed old (some cur) = not (old.name == cur.name) || not (old.namespace == cur.namespace)

  module _ (eh : PodHandler) where
    enqueue_found : Option LoadBalancer → Exec Call (Unit {0})
    enqueue_found none h = pure tt h
    enqueue_found (some lb) h = enqueue C eh.helper (load_balancer lb) h

    -- `OnDelete` once the pod is known, and the last part of `OnAdd`.
    unfoldable pub on_delete_pod : Pod → Exec Call (Unit {0})
    unfolding enqueue_found
    on_delete_pod p h =
        if eh.filtered p then pure tt h else enqueue_found (get_loadbalancer_for_pod p h) h

    -- `OnDelete`
    unfoldable pub on_delete : Obj → Exec Call (Unit {0})
    unfolding on_delete_pod
    on_delete (pod p) = on_delete_pod p
    on_delete (tombstone (pod p)) = on_delete_pod p
    on_delete o = pure tt

    -- `OnAdd`
    unfoldable pub on_add : Obj → Exec Call (Unit {0})
    unfolding on_delete enqueue_found
    on_add (pod p) h =
        if eh.filtered p
        then pure tt h
        else if is_some p.deletion_timestamp
        then on_delete (pod p) h
        else enqueue_found (get_loadbalancer_for_pod p h) h
    on_add o h = crash h

    -- The load balancer that the pod has left is enqueued after a second.
    unfoldable pub enqueue_left :
        Bool → Option LoadBalancer → Option LoadBalancer → Exec Call (Unit {0})
    enqueue_left true old cur h = pure tt h
    enqueue_left false none cur h = pure tt h
    enqueue_left false (some old) cur h =
        if lb_changed old cur
        then enqueue_after C eh.helper (load_balancer old) "1s" h
        else pure tt h

    -- The load balancer that the pod has is enqueued after a second.
    unfoldable pub enqueue_current : Bool → Option LoadBalancer → Exec Call (Unit {0})
    enqueue_current true cur h = pure tt h
    enqueue_current false none h = pure tt h
    enqueue_current false (some cur) h = enqueue_after C eh.helper (load_balancer cur) "1s" h

    -- `OnUpdate` for two pods.
    unfoldable pub update_pod : Pod → Pod → Exec Call (Unit {0})
    unfolding enqueue_left enqueue_current
    update_pod old cur h =
        if old.resource_version == cur.resource_version
        then pure tt h
        else if eh.filtered old && eh.filtered cur
        then pure tt h
        else (enqueue_left (eh.filtered old) (get_loadbalancer_for_pod old h)
                (get_loadbalancer_for_pod cur h)
              >> enqueue_current (eh.filtered cur) (get_loadbalancer_for_pod cur h))
            h

    -- `OnUpdate`
    unfoldable pub on_update : Obj → Obj → Exec Call (Unit {0})
    unfolding update_pod
    on_update (pod old) (pod cur) = update_pod old cur
    on_update o o' = crash
