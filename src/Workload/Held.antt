-- ===== src/Workload/Held.antt =====
-- getDeploymentsForLoadBalancer of proxy/proxies/nginx/nginx.go and
-- provider/providers/ipvsdr/ipvsdr.go where the load balancer holds its one deployment.
use loadbalancer_controller.Common.{true, List, [], ◌∷◌, ◌≡◌, refl}
use loadbalancer_controller.Common.Effects.{reply, ok}
use loadbalancer_controller.Common.GoMap.{GoMap}
use loadbalancer_controller.Api.{LoadBalancer, Deployment}
use loadbalancer_controller.Cluster.{Cluster, Library, Routines, HasAggregate, Call}
use loadbalancer_controller.RefManager.Claims.{is_held}
use loadbalancer_controller.RefManager.Held.{claim_with-held}
use loadbalancer_controller.RefManager.Objects.{claim_deployments}
use loadbalancer_controller.Workload.{manager, no_error, get_deployments_for_load_balancer}

module _ (C : Cluster) (L : Library) (A : HasAggregate L) (R : Routines) (lb : LoadBalancer) where
  -- A deployment that is held already is found without a call.
  pub get_deployments_for_load_balancer-held :
      (selector : GoMap) (d : Deployment) (h : List Call)
      → C.cached_deployments h lb.namespace selector ≡ reply (d ∷ [])
      → is_held L (manager C L R lb selector) (λ (d : Deployment). d.meta) d ≡ true
      → get_deployments_for_load_balancer C L R lb selector h ≡ (ok (d ∷ []), h)
  unfolding get_deployments_for_load_balancer claim_deployments no_error
  get_deployments_for_load_balancer-held selector d h listed held =
      rw
        (
          listed,
          claim_with-held L (manager C L R lb selector) (λ (d : Deployment). d.meta) _ _ (d ∷ []) h
              (held, tt),
          A.aggregate-nil,
        )
        refl

  -- Nor does it take one to find that there is none.
  pub get_deployments_for_load_balancer-none :
      (selector : GoMap) (h : List Call)
      → C.cached_deployments h lb.namespace selector ≡ reply []
      → get_deployments_for_load_balancer C L R lb selector h ≡ (ok [], h)
  unfolding get_deployments_for_load_balancer claim_deployments no_error
  get_deployments_for_load_balancer-none selector h listed = rw (listed, A.aggregate-nil) refl
