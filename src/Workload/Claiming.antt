-- ===== src/Workload/Claiming.antt =====
-- What getDeploymentsForLoadBalancer of proxy/proxies/nginx/nginx.go and
-- provider/providers/ipvsdr/ipvsdr.go asks of the API server.
use loadbalancer_controller.Common.{
  ℕ, ◌+◌, ◌≤◌, ◌≡◌, refl, arith, Option, none, some, List, ◌∷◌, ◌==◌, string_eq, Bool-cases, inl,
  inr,
}
use loadbalancer_controller.Common.Effects.{
  Error, Reply-cases, Result, ok, err, panic, blocked, continue,
}
use loadbalancer_controller.Common.GoMap.{GoMap}
use loadbalancer_controller.Api.{LoadBalancer, Deployment}
use loadbalancer_controller.Cluster.{Cluster, Library, Routines, HasRecheck, Call, get_lb}
use loadbalancer_controller.RefManager.Objects.{claim_deployments}
use loadbalancer_controller.RefManager.Objects.Fetches.{fetches, claim_deployments-fetches}
use loadbalancer_controller.Workload.{
  same_lb, fetch_fresh, manager, no_error, get_deployments_for_load_balancer,
}

module _ (C : Cluster) (L : Library) (R : Routines) (H : HasRecheck R) (lb : LoadBalancer) where
  same_lb-calls : (fresh : LoadBalancer) (h : List Call) → (same_lb C L R lb fresh h).1 ≡ h
  unfolding same_lb
  same_lb-calls fresh h = elim (Bool-cases (fresh.uid == lb.uid)) [
    | inl same ↦ rw same refl
    | inr other ↦ rw other refl
  ]

  fetch_fresh-calls : (h : List Call) → (fetch_fresh C L R lb h).1 ≡ get_lb lb.namespace lb.name ∷ h
  unfolding fetch_fresh
  fetch_fresh-calls h = elim (Reply-cases (C.live_lb h lb.namespace lb.name)) [
    | inl (fresh, e) ↦ rw e (same_lb-calls fresh (get_lb lb.namespace lb.name ∷ h))
    | inr (x, e) ↦ rw e refl
  ]

  recheck-fetches :
      (h : List Call)
      → fetches (R.recheck_deletion_timestamp (fetch_fresh C L R lb) h).1 ≤ fetches h + 1
  recheck-fetches h =
      rw (H.recheck_calls (fetch_fresh C L R lb) h, fetch_fresh-calls h) (omega arith)

  no_error-fetches :
      (n : ℕ) (out : Result (List Deployment × Option Error) × List Call)
      → fetches out.1 ≤ n
      → fetches (continue out.0 (no_error C L R lb) out.1).1 ≤ n
  unfolding no_error
  no_error-fetches n (ok (ds, none), h) b = b
  no_error-fetches n (ok (ds, some e), h) b = b
  no_error-fetches n (err e, h) b = b
  no_error-fetches n (panic, h) b = b
  no_error-fetches n (blocked, h) b = b

  -- If a recheck fetches its object once, then however many deployments are listed, and whatever the
  -- API server answers, getting those of a load balancer asks for the live load balancer at most
  -- once.
  pub get_deployments_for_load_balancer-fetches :
      (selector : GoMap) (h : List Call)
      → fetches (get_deployments_for_load_balancer C L R lb selector h).1 ≤ fetches h + 1
  unfolding get_deployments_for_load_balancer
  get_deployments_for_load_balancer-fetches selector h =
      elim (Reply-cases (C.cached_deployments h lb.namespace selector)) [
        | inl (ds, e) ↦ rw e (
            no_error-fetches _ (claim_deployments C L (manager C L R lb selector) ds h) (
              claim_deployments-fetches C L (manager C L R lb selector)
                (R.recheck_deletion_timestamp (fetch_fresh C L R lb)) recheck-fetches ds h))
        | inr (x, e) ↦ rw e (omega arith)
      ]
