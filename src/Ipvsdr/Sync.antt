-- ===== src/Ipvsdr/Sync.antt =====
-- syncLoadBalancer, sync and cleanup of provider/providers/ipvsdr/ipvsdr.go.
pub mod Generated
pub mod Steady
use loadbalancer_controller.Common.{String, Bool, false, Option, none, some}
use loadbalancer_controller.Common.{List, is_some, ◌==◌, string_eq, nat_eq}
use loadbalancer_controller.Common.{if◌then◌else◌}
use loadbalancer_controller.Common.Effects.{Error, message, is_not_found, Reply, reply, failed}
use loadbalancer_controller.Common.Effects.{Exec, pure, fail, call, ignore, for_each}
use loadbalancer_controller.Common.Effects.{◌>>=◌, ◌>>◌}
use loadbalancer_controller.Api.{LoadBalancer, Deployment}
use loadbalancer_controller.Cluster.{Cluster, Library, Routines, Call, Obj, load_balancer}
use loadbalancer_controller.Cluster.{delete_deployment}
use loadbalancer_controller.Validation.{validate_load_balancer}
use loadbalancer_controller.Listers.{get_lb_cached}
use loadbalancer_controller.Workload.{get_deployments_for_load_balancer}
use loadbalancer_controller.Ipvsdr.Selector.{Ipvsdr, provider_name_suffix, selector}
use loadbalancer_controller.Ipvsdr.Generate.{generate_deployment}
use loadbalancer_controller.Ipvsdr.Ensure.{ensure_deployment}
use loadbalancer_controller.Ipvsdr.Status.{sync_status}
use loadbalancer_controller.Workload.Loop.{sync_loop, create_if_missing}

module _ (C : Cluster) where
  abbrev send : Call → Exec Call (Unit {0})
  send c = call c (λ h. C.accepted h c)

module _ (C : Cluster) (L : Library) (R : Routines) (is_ip : String → Bool) (f : Ipvsdr)
    (keys : List String) where
  -- What follows the loop of `sync`.
  unfoldable pub finish : LoadBalancer → Deployment → Bool × Deployment → Exec Call (Unit {0})
  unfolding create_if_missing sync_status
  finish lb desired (updated, active) =
      create_if_missing C L provider_name_suffix (ensure_deployment L) lb desired updated
      >> sync_status C R lb active

  -- `sync`
  unfoldable pub sync : LoadBalancer → List Deployment → Exec Call (Unit {0})
  unfolding sync_loop finish generate_deployment ensure_deployment
  sync lb dps h =
      let desired = generate_deployment f (C.int63 h) keys lb in
      (sync_loop C L provider_name_suffix (ensure_deployment L) lb desired dps false desired
          >>= finish lb desired)
        h

  -- `getDeploymentsForLoadBalancer`
  abbrev pub get_deployments : LoadBalancer → Exec Call (List Deployment)
  get_deployments lb = get_deployments_for_load_balancer C L R lb (selector lb)

  -- `cleanup`: the deployments; the errors of the deletions are dropped.
  unfoldable pub cleanup : LoadBalancer → Exec Call (Unit {0})
  unfolding get_deployments_for_load_balancer for_each
  cleanup lb = get_deployments lb >>= λ ds.
      for_each ds
        (λ (d : Deployment). ignore (send C (delete_deployment d.namespace d.name 30 "Foreground")))

  sync_unless_deleted : LoadBalancer → List Deployment → Exec Call (Unit {0})
  unfolding sync
  sync_unless_deleted lb ds = if is_some lb.deletion_timestamp then pure tt else sync lb ds

  sync_fetched : LoadBalancer → Reply LoadBalancer → Exec Call (Unit {0})
  unfolding cleanup sync_unless_deleted
  sync_fetched lb (failed e) = if is_not_found e then cleanup lb else fail e
  sync_fetched lb (reply fresh) =
      if lb.uid == fresh.uid then (get_deployments fresh >>= sync_unless_deleted fresh) else pure tt

  sync_valid : LoadBalancer → Option Error → Exec Call (Unit {0})
  unfolding sync_fetched
  sync_valid lb (some e) h = fail e h
  sync_valid lb none h = sync_fetched lb (get_lb_cached C L h lb.namespace lb.name) h

  -- `syncLoadBalancer`
  unfoldable pub sync_load_balancer : Obj → Exec Call (Unit {0})
  unfolding sync_valid
  sync_load_balancer (load_balancer lb) = sync_valid lb (validate_load_balancer is_ip lb)
  sync_load_balancer o = fail (message "expect loadbalancer")
