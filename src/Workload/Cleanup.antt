-- ===== src/Workload/Cleanup.antt =====
-- The calls of cleanup of proxy/proxies/nginx/nginx.go and provider/providers/ipvsdr/ipvsdr.go, for
-- a load balancer that is being deleted.
use loadbalancer_controller.Common.{List, [], ◌∷◌, ◌≡◌, refl, true, is_some, keep_if, inl, inr}
use loadbalancer_controller.Common.Effects.{reply, Reply-cases, ok, call, ignore, for_each}
use loadbalancer_controller.Common.GoMap.{GoMap}
use loadbalancer_controller.Api.{LoadBalancer, Deployment}
use loadbalancer_controller.Cluster.{Cluster, Library, Routines, HasAggregate, Call}
use loadbalancer_controller.RefManager.Objects.{claim_deployments}
use loadbalancer_controller.RefManager.Claims.{is_held, claim_with-deleting}
use loadbalancer_controller.Workload.{manager, no_error, get_deployments_for_load_balancer}

-- The calls are made in the order of the list.
abbrev pub made : {A : Type 0} → (A → Call) → List A → List Call → List Call
made f [] h = h
made f (x ∷ xs) h = made f xs (f x ∷ h)

module _ (C : Cluster) {A : Type 0} (f : A → Call) where
  -- A loop that goes on whatever the server answers.
  pub for_each-ignore :
      (xs : List A) (h : List Call)
      → for_each xs (λ x. ignore (call (f x) (λ h. C.accepted h (f x)))) h ≡ (ok tt, made f xs h)
  unfolding for_each
  for_each-ignore [] h = refl
  for_each-ignore (x ∷ xs) h = elim (Reply-cases (C.accepted h (f x))) [
    | inl (u, e) ↦ rw e (for_each-ignore xs (f x ∷ h))
    | inr (x', e) ↦ rw e (for_each-ignore xs (f x ∷ h))
  ]

  -- A loop that the server lets go on.
  pub for_each-accepted :
      ((h : List Call) (x : A) → C.accepted h (f x) ≡ reply tt)
      → (xs : List A) (h : List Call)
      → for_each xs (λ x. call (f x) (λ h. C.accepted h (f x))) h ≡ (ok tt, made f xs h)
  unfolding for_each
  for_each-accepted a [] h = refl
  for_each-accepted a (x ∷ xs) h = rw (a h x) (for_each-accepted a xs (f x ∷ h))

-- The deployments among these that a load balancer controls and that the selector matches.
abbrev pub held_by :
    Cluster → Library → Routines → LoadBalancer → GoMap → List Deployment → List Deployment
held_by C L R lb selector =
    keep_if (is_held L (manager C L R lb selector) (λ (d : Deployment). d.meta))

module _ (C : Cluster) (L : Library) (A : HasAggregate L) (R : Routines) (lb : LoadBalancer) where
  -- For a load balancer that is being deleted, the deployments are found without a call.
  pub get_deployments_for_load_balancer-deleting :
      (selector : GoMap) (ds : List Deployment) (h : List Call)
      → is_some lb.deletion_timestamp ≡ true
      → C.cached_deployments h lb.namespace selector ≡ reply ds
      → get_deployments_for_load_balancer C L R lb selector h
        ≡ (ok (held_by C L R lb selector ds), h)
  unfolding get_deployments_for_load_balancer claim_deployments no_error
  get_deployments_for_load_balancer-deleting selector ds h deleting listed =
      rw
        (
          listed,
          claim_with-deleting L (manager C L R lb selector) (λ (d : Deployment). d.meta) _ _
              deleting ds h,
          A.aggregate-nil,
        )
        refl
