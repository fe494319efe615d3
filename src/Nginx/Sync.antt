-- ===== src/Nginx/Sync.antt =====
-- syncLoadBalancer, sync and cleanup of proxy/proxies/nginx/nginx.go.
pub mod Generated
pub mod Cleanup
pub mod Fresh
pub mod Steady
use loadbalancer_controller.Common.{String, ◌<>◌, Bool, true, false, not, ◌||◌, Option, none, some}
use loadbalancer_controller.Common.{List, [], ◌∷◌, is_some, ◌==◌, string_eq, nat_eq}
use loadbalancer_controller.Common.{if◌then◌else◌}
use loadbalancer_controller.Common.Effects.{Error, message, is_not_found, Reply, reply, failed}
use loadbalancer_controller.Common.Effects.{
  Exec, pure, fail, crash, lift, call, attempt, ignore, deref, for_each,
}
use loadbalancer_controller.Common.Effects.{◌>>=◌, ◌>>◌}
use loadbalancer_controller.Api.{
  LoadBalancer, Deployment, Ingress, label_key_created_by, created_by,
}
use loadbalancer_controller.Cluster.{
  Cluster, Library, Routines, Call, Obj, load_balancer, create_deployment, update_deployment,
}
use loadbalancer_controller.Cluster.{
  delete_deployment, delete_config_maps, list_ingresses, delete_ingress,
}
use loadbalancer_controller.LbUtil.Copies.{as_load_balancer}
use loadbalancer_controller.Validation.{validate_load_balancer}
use loadbalancer_controller.Listers.{get_lb_cached}
use loadbalancer_controller.Workload.{get_deployments_for_load_balancer}
use loadbalancer_controller.Nginx.Selector.{Nginx, proxy_name_suffix, selector}
use loadbalancer_controller.Nginx.Generate.{generate_deployment}
use loadbalancer_controller.Nginx.Ensure.{ensure_deployment}
use loadbalancer_controller.Nginx.ConfigMaps.{ensure_config_maps}
use loadbalancer_controller.Nginx.Status.{sync_status}
use text.Mathlib.Text.{starts_with}
use loadbalancer_controller.Workload.Loop.{sync_loop, create_if_missing}

module _ (C : Cluster) where
  abbrev send : Call → Exec Call (Unit {0})
  send c = call c (λ h. C.accepted h c)

-- `clone`; a nil pointer may come without an error.
abbrev pub clone : Library → LoadBalancer → Reply (Option LoadBalancer)
clone L lb = as_load_balancer (L.deep_copy (load_balancer lb))

module _ (C : Cluster) (L : Library) (R : Routines) (is_ip : String → Bool) (f : Nginx)
    (keys : List String) where
  -- What follows the loop of `sync`.
  unfoldable pub finish : LoadBalancer → Deployment → Bool × Deployment → Exec Call (Unit {0})
  unfolding create_if_missing ensure_config_maps sync_status
  finish lb desired (updated, active) =
      create_if_missing C L proxy_name_suffix (ensure_deployment L) lb desired updated
      >> ensure_config_maps C lb
      >> sync_status C R lb active

  -- `sync`
  unfoldable pub sync : LoadBalancer → List Deployment → Exec Call (Unit {0})
  unfolding sync_loop finish generate_deployment ensure_deployment
  sync lb dps h =
      let desired = generate_deployment f (C.int63 h) keys lb in
      (sync_loop C L proxy_name_suffix (ensure_deployment L) lb desired dps false desired
          >>= finish lb desired)
        h

  -- `cleanup`: the deployments, the config maps and the ingresses of the load balancer.
  unfoldable pub cleanup : LoadBalancer → Exec Call (Unit {0})
  unfolding get_deployments_for_load_balancer for_each
  cleanup lb = get_deployments_for_load_balancer C L R lb (selector lb) >>= λ ds.
      for_each ds
        (λ (d : Deployment). send C (delete_deployment d.namespace d.name 30 "Foreground"))
      >> send C (delete_config_maps lb.namespace (selector lb))
      >> (let created = some ((label_key_created_by, created_by lb.namespace lb.name) ∷ []) in
          call (list_ingresses created) (λ h. C.live_ingresses h created))
      >>= λ is. for_each is (λ (i : Ingress). send C (delete_ingress i.namespace i.name))

  sync_unless_deleted : LoadBalancer → List Deployment → Exec Call (Unit {0})
  unfolding sync
  sync_unless_deleted lb ds = if is_some lb.deletion_timestamp then pure tt else sync lb ds

  sync_fetched : LoadBalancer → Reply LoadBalancer → Exec Call (Unit {0})
  unfolding cleanup sync_unless_deleted
  sync_fetched lb (failed e) = if is_not_found e then cleanup lb else fail e
  sync_fetched lb (reply fresh) =
      if lb.uid == fresh.uid
      then (lift (clone L fresh) >>= deref >>= λ copy.
          get_deployments_for_load_balancer C L R copy (selector copy) >>= sync_unless_deleted copy)
      else pure tt

  sync_valid : LoadBalancer → Option Error → Exec Call (Unit {0})
  unfolding sync_fetched
  sync_valid lb (some e) h = fail e h
  sync_valid lb none h = sync_fetched lb (get_lb_cached C L h lb.namespace lb.name) h

  -- `syncLoadBalancer`
  unfoldable pub sync_load_balancer : Obj → Exec Call (Unit {0})
  unfolding sync_valid
  sync_load_balancer (load_balancer lb) = sync_valid lb (validate_load_balancer is_ip lb)
  sync_load_balancer o = fail (message "expect loadbalancer")
