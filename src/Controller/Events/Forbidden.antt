-- ===== src/Controller/Events/Forbidden.antt =====
-- The change of a load balancer's type that updateLoadBalancer of controller/lb_controller.go
-- takes back.
use loadbalancer_controller.Common.{true, false, ◌≡◌, refl, arith, List, ◌∷◌, ◌==◌, string_eq}
use loadbalancer_controller.Common.Effects.{ok, ignore-call}
use loadbalancer_controller.Api.{LoadBalancer}
use loadbalancer_controller.LbUtil.Copies.{as_load_balancer-deep_copy}
use loadbalancer_controller.Cluster.{Cluster, Library, HasDeepCopy, Call, load_balancer, update_lb}
use loadbalancer_controller.Controller.Events.{
  spec_equal, is_forbidden, reverted, revert, update_load_balancer,
}
use text.Mathlib.TextEquality.{eq_iff}

forbidden-internal :
    (old cur : LoadBalancer) → is_forbidden old cur ≡ true → old.spec.kind ≡ "internal"
forbidden-internal old cur f = (eq_iff old.spec.kind "internal").0 (ground arith)

forbidden-external :
    (old cur : LoadBalancer) → is_forbidden old cur ≡ true → cur.spec.kind ≡ "external"
forbidden-external old cur f = (eq_iff cur.spec.kind "external").0 (ground arith)

forbidden-differs :
    (old cur : LoadBalancer) → is_forbidden old cur ≡ true → spec_equal old.spec cur.spec ≡ false
unfolding spec_equal
forbidden-differs old cur f = rw (forbidden-internal old cur f, forbidden-external old cur f) refl

module _ (C : Cluster) (L : Library) (D : HasDeepCopy L) where
  -- An update to a new version that changes the type from internal to external enqueues nothing. It
  -- makes one call, which writes the current load balancer with the type internal.
  pub update_load_balancer-forbidden :
      (old cur : LoadBalancer) (h : List Call)
      → (old.resource_version == cur.resource_version) ≡ false
      → is_forbidden old cur ≡ true
      → (update_load_balancer C L (load_balancer old) (load_balancer cur) h
          ≡ (ok tt, update_lb cur.namespace (reverted old cur) ∷ h))
        × ((reverted old cur).spec.kind ≡ "internal")
  unfolding update_load_balancer revert
  update_load_balancer-forbidden old cur h newer f = (
    rw (newer, forbidden-differs old cur f, f, as_load_balancer-deep_copy L D cur)
        (ignore-call (update_lb cur.namespace (reverted old cur))
          (λ k. C.updated_lb k cur.namespace (reverted old cur)) h),
    forbidden-internal old cur f,
  )
