-- ===== src/Handlers/Pods/Events.antt =====
-- The events of the pods of a load balancer, from pkg/util/lb/event_handler.go to the queue.
use loadbalancer_controller.Common.{
  Bool, true, false, ◌==◌, string_eq, some, List, ◌∷◌, ◌≡◌, refl, ◌∙◌, is_some, Bool-cases, inl,
  inr,
}
use loadbalancer_controller.Common.Effects.{reply, ok}
use loadbalancer_controller.Api.{LoadBalancer, Pod}
use loadbalancer_controller.Cluster.{
  Cluster, Library, Call, Queue, load_balancer, pod, tombstone, add, add_after,
}
use loadbalancer_controller.Helper.{
  new_helper_for_key_func, passthrough_key_func, enqueue, enqueue_after,
}
use loadbalancer_controller.LbUtil.Names.{no_dot}
use loadbalancer_controller.Listers.{get_lb_cached}
use loadbalancer_controller.Handlers.Pods.{
  PodHandler, new_event_handler_for_sync_status_with_pod, get_loadbalancer_for_pod, on_add,
  on_delete, on_delete_pod, on_update,
}
use loadbalancer_controller.Handlers.Pods.Owner.{IsPodOf, get_loadbalancer_for_pod-selector}

-- The handler of a plugin with this queue and this filter.
abbrev pub handler : Queue → (Pod → Bool) → PodHandler
handler queue filter_func =
    new_event_handler_for_sync_status_with_pod (new_helper_for_key_func queue passthrough_key_func)
      filter_func

module _ (C : Cluster) (L : Library) (queue : Queue) (filter_func : Pod → Bool)
    (lb fresh : LoadBalancer) (h : List Call) (plain_namespace : no_dot lb.namespace ≡ true)
    (plain_name : no_dot lb.name ≡ true)
    (listed : get_lb_cached C L h lb.namespace lb.name ≡ reply fresh)
    (open_queue : C.shutting_down h queue ≡ false) where
  found_lem : (p : Pod) → IsPodOf lb p → get_loadbalancer_for_pod C L p h ≡ some fresh
  found_lem p own =
      get_loadbalancer_for_pod-selector C L lb p h plain_namespace own
      ∙ rw (plain_name, listed) refl

  enqueue_lem :
      enqueue C (new_helper_for_key_func queue passthrough_key_func) (load_balancer fresh) h
      ≡ (ok tt, add queue (load_balancer fresh) ∷ h)
  unfolding enqueue
  enqueue_lem = rw open_queue refl

  on_delete_pod_lem :
      (p : Pod)
      → IsPodOf lb p
      → filter_func p ≡ false
      → on_delete_pod C L (handler queue filter_func) p h
        ≡ (ok tt, add queue (load_balancer fresh) ∷ h)
  unfolding on_delete_pod
  on_delete_pod_lem p own kept = rw (kept, found_lem p own) enqueue_lem

  on_add_lem :
      (p : Pod)
      → IsPodOf lb p
      → filter_func p ≡ false
      → on_add C L (handler queue filter_func) (pod p) h
        ≡ (ok tt, add queue (load_balancer fresh) ∷ h)
  unfolding on_add
  on_add_lem p own kept = elim (Bool-cases (is_some p.deletion_timestamp)) [
    | inl deleting ↦ rw (kept, deleting, found_lem p own) enqueue_lem
    | inr alive ↦ rw (kept, alive, found_lem p own) enqueue_lem
  ]

  on_update_lem :
      (old cur : Pod)
      → IsPodOf lb old
      → IsPodOf lb cur
      → filter_func old ≡ false
      → filter_func cur ≡ false
      → (old.resource_version == cur.resource_version) ≡ false
      → on_update C L (handler queue filter_func) (pod old) (pod cur) h
        ≡ (ok tt, add_after queue (load_balancer fresh) "1s" ∷ h)
  unfolding on_update enqueue_after
  on_update_lem old cur own own' kept kept' newer =
      rw
        (
          newer,
          kept,
          kept',
          found_lem old own,
          found_lem cur own',
          (string_eq.equals_iff fresh.name fresh.name).1 refl,
          (string_eq.equals_iff fresh.namespace fresh.namespace).1 refl,
          open_queue,
        )
        refl

  -- While the queue is open, every event of a pod that has the labels of a load balancer's pods, and
  -- perhaps others, and that the handler does not filter, puts the load balancer that the lister has for it on the
  -- queue once and makes no other call: an addition, also of a pod that is being deleted, and a
  -- deletion, also one that is known from a tombstone only, at once, and an update to a new version
  -- after a second. Neither the name nor the namespace of the load balancer has a dot.
  pub pod_events-enqueue :
      (old cur : Pod)
      → IsPodOf lb old
      → IsPodOf lb cur
      → filter_func old ≡ false
      → filter_func cur ≡ false
      → (old.resource_version == cur.resource_version) ≡ false
      → (on_add C L (handler queue filter_func) (pod cur) h
          ≡ (ok tt, add queue (load_balancer fresh) ∷ h))
        × (on_update C L (handler queue filter_func) (pod old) (pod cur) h
            ≡ (ok tt, add_after queue (load_balancer fresh) "1s" ∷ h))
        × (on_delete C L (handler queue filter_func) (pod cur) h
            ≡ (ok tt, add queue (load_balancer fresh) ∷ h))
        × (on_delete C L (handler queue filter_func) (tombstone (pod cur)) h
            ≡ (ok tt, add queue (load_balancer fresh) ∷ h))
  unfolding on_delete
  pod_events-enqueue old cur own own' kept kept' newer = (
    on_add_lem cur own' kept',
    on_update_lem old cur own own' kept kept' newer,
    on_delete_pod_lem cur own' kept',
    on_delete_pod_lem cur own' kept',
  )
