-- ===== src/LbUtil/Copies.antt =====
-- DeploymentDeepCopy of pkg/util/lb/lb.go, and what clone of controller/lb_controller.go and of
-- proxy/proxies/nginx/nginx.go makes of a deep copy.
use loadbalancer_controller.Common.{Option, none, some, ◌≡◌, refl}
use loadbalancer_controller.Common.Effects.{message, Reply, reply, failed}
use loadbalancer_controller.Api.{LoadBalancer, Deployment}
use loadbalancer_controller.Cluster.{Library, HasDeepCopy, Obj, load_balancer, deployment}

-- The type assertion on the copy.
as_deployment : Reply Obj → Reply Deployment
as_deployment (failed e) = failed e
as_deployment (reply (deployment d)) = reply d
as_deployment (reply o) = failed (message "expected Deployment")

-- `DeploymentDeepCopy`
unfoldable pub deployment_deep_copy : Library → Deployment → Reply Deployment
unfolding as_deployment
deployment_deep_copy L d = as_deployment (L.deep_copy (deployment d))

-- A copy of another type is logged, and then the error that is returned beside the nil pointer is
-- that of the deep copy, which is nil.
unfoldable pub as_load_balancer : Reply Obj → Reply (Option LoadBalancer)
as_load_balancer (failed e) = failed e
as_load_balancer (reply (load_balancer lb)) = reply (some lb)
as_load_balancer (reply o) = reply none

module _ (L : Library) (D : HasDeepCopy L) where
  pub deployment_deep_copy_lem : (d : Deployment) → deployment_deep_copy L d ≡ reply d
  unfolding deployment_deep_copy
  deployment_deep_copy_lem d = rw (D.deep_copy_lem (deployment d)) refl

  pub as_load_balancer-deep_copy :
      (lb : LoadBalancer) → as_load_balancer (L.deep_copy (load_balancer lb)) ≡ reply (some lb)
  unfolding as_load_balancer
  as_load_balancer-deep_copy lb = rw (D.deep_copy_lem (load_balancer lb)) refl
