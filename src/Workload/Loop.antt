-- ===== src/Workload/Loop.antt =====
-- The loop of sync over the deployments, in proxy/proxies/nginx/nginx.go and in
-- provider/providers/ipvsdr/ipvsdr.go, for the suffix of the plugin's names and its
-- ensureDeployment.
pub mod Scale
use loadbalancer_controller.Common.{String, ◌<>◌, Bool, true, false, not, ◌||◌, Option, none, some}
use loadbalancer_controller.Common.{List, [], ◌∷◌, is_some, ◌==◌, string_eq, nat_eq}
use loadbalancer_controller.Common.{if◌then◌else◌}
use loadbalancer_controller.Common.Effects.{Error, message, is_not_found, Reply, reply, failed}
use loadbalancer_controller.Common.Effects.{
  Exec, pure, fail, crash, lift, call, attempt, ignore, deref, for_each,
}
use loadbalancer_controller.Common.Effects.{◌>>=◌, ◌>>◌}
use loadbalancer_controller.Api.{
  LoadBalancer, Deployment, Ingress, label_key_created_by, created_by,
}
use loadbalancer_controller.LbUtil.Copies.{deployment_deep_copy}
use loadbalancer_controller.Cluster.{
  Cluster, Library, Routines, Call, Obj, load_balancer, create_deployment, update_deployment,
}
use loadbalancer_controller.Cluster.{
  delete_deployment, delete_config_maps, list_ingresses, delete_ingress,
}
use loadbalancer_controller.Validation.{validate_load_balancer}
use loadbalancer_controller.Listers.{get_lb_cached}
use loadbalancer_controller.Workload.{get_deployments_for_load_balancer}
use loadbalancer_controller.Nginx.Selector.{Nginx, proxy_name_suffix, selector}
use loadbalancer_controller.Nginx.Generate.{generate_deployment}
use loadbalancer_controller.Nginx.Ensure.{ensure_deployment}
use loadbalancer_controller.Nginx.ConfigMaps.{ensure_config_maps}
use loadbalancer_controller.Nginx.Status.{sync_status}
use text.Mathlib.Text.{starts_with}

module _ (C : Cluster) (L : Library) (suffix : String)
    (ensure_deployment : Deployment → Deployment → Exec Call (Deployment × Bool)) where
  abbrev pub send : Call → Exec Call (Unit {0})
  send c = call c (λ h. C.accepted h c)

  -- The copy that is scaled down; a failed copy is nil, and panics.
  scaled_down : Reply Deployment → Exec Call Deployment
  scaled_down (failed e) = crash
  scaled_down (reply copy) = pure (record copy { replicas = some 0 })

  -- A deployment that is not wanted has its replicas set to zero. The update's error is dropped.
  unfoldable pub scale_down : LoadBalancer → Deployment → Exec Call (Unit {0})
  unfolding scaled_down
  scale_down lb dp = deref dp.replicas >>= λ n.
      (if n == 0
        then pure tt
        else scaled_down (deployment_deep_copy L dp) >>= λ copy.
            ignore (send (update_deployment lb.namespace copy)))

  -- An ensured deployment is updated if it has changed, and is the active one from then on. If it
  -- could not be ensured, the active one stays.
  unfoldable pub update_ensured :
      LoadBalancer → Deployment → Reply (Deployment × Bool) → Exec Call Deployment
  update_ensured lb active (failed e) = pure active
  update_ensured lb active (reply (copy, changed)) =
      (if changed then send (update_deployment lb.namespace copy) else pure tt) >> pure copy

  -- `dp` has the generated prefix.
  abbrev pub is_generated : LoadBalancer → Deployment → Bool
  is_generated lb dp = starts_with dp.name (lb.name <> suffix)

  -- The body of the loop of `sync`, over `updated` and `activeDeploy`.
  unfoldable pub sync_one :
      LoadBalancer → Deployment → Deployment → Bool → Deployment → Exec Call (Bool × Deployment)
  unfolding scale_down update_ensured
  sync_one lb desired dp updated active =
      if not (is_generated lb dp) || updated
      then scale_down lb dp >> pure (updated, active)
      else attempt (ensure_deployment desired dp) >>= update_ensured lb active >>= λ active'.
          pure (true, active')

  -- The loop.
  unfoldable pub sync_loop :
      LoadBalancer
      → Deployment
      → List Deployment
      → Bool
      → Deployment
      → Exec Call (Bool × Deployment)
  unfolding sync_one
  sync_loop lb desired [] updated active = pure (updated, active)
  sync_loop lb desired (dp ∷ dps) updated active =
      sync_one lb desired dp updated active >>= λ (updated', active').
      sync_loop lb desired dps updated' active'

  -- The desired deployment is created if none of the existing ones is its.
  unfoldable pub create_if_missing : LoadBalancer → Deployment → Bool → Exec Call (Unit {0})
  create_if_missing lb desired true = pure tt
  create_if_missing lb desired false = send (create_deployment lb.namespace desired)
