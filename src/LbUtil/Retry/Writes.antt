-- ===== src/LbUtil/Retry/Writes.antt =====
-- What a successful UpdateLBWithRetries of pkg/util/lb/lb.go has written.
use loadbalancer_controller.Common.{String, ◌≡◌, refl, ap, ◌∙◌, List, ◌∷◌, ◌⊎◌, inl, inr}
use loadbalancer_controller.Common.Effects.{
  Reply-cases, precondition_violated, not_found, already_exists, invalid, conflict, server, message,
  Reply, reply, Result, ok, err, panic, blocked, continue, observed,
}
use mathlib.Core.Path.{subst}
use loadbalancer_controller.Api.{LoadBalancer}
use loadbalancer_controller.Cluster.{
  Cluster, Call, Routines, HasRetry, Runs, last, again, get_lb, update_lb,
}
use loadbalancer_controller.LbUtil.Retry.{update_once, retried, update_lb_with_retries}

module _ (C : Cluster) (R : Routines) (namespace name : String)
    (apply : LoadBalancer → Reply LoadBalancer) where
  -- The last two calls fetched the live load balancer and wrote what `apply` made of it, which the
  -- API server accepted.
  pub record Written (h : List Call) : Type 0 where
    pub before : List Call
    pub live : LoadBalancer
    pub changed : LoadBalancer
    pub was_live : C.live_lb before namespace name ≡ reply live
    pub was_applied : apply live ≡ reply changed
    pub calls : h ≡ update_lb namespace changed ∷ get_lb namespace name ∷ before
    pub stored : LoadBalancer
    pub was_accepted :
        C.updated_lb (get_lb namespace name ∷ before) namespace changed ≡ reply stored

  abbrev Wrote : Result LoadBalancer → List Call → Type 0
  Wrote (ok lb) h = Written h
  Wrote (err e) h = Unit
  Wrote panic h = Unit
  Wrote blocked h = Unit

  abbrev WroteIn : Result LoadBalancer × List Call → Type 0
  WroteIn (r, h) = Wrote r h

  wrote_once : (h : List Call) → WroteIn (update_once C R namespace name apply h)
  unfolding update_once
  wrote_once h = elim (Reply-cases (C.live_lb h namespace name)) [
    | inr (e, gone) ↦ rw gone tt
    | inl (live, l) ↦ rw l (elim (Reply-cases (apply live)) [
      | inr (e, refused) ↦ rw refused tt
      | inl (changed, a) ↦
          rw a (elim (Reply-cases (C.updated_lb (get_lb namespace name ∷ h) namespace changed)) [
            | inr (e, u) ↦ rw u tt
            | inl (x, u) ↦ rw u (record {
              before = h;
              live = live;
              changed = changed;
              was_live = l;
              was_applied = a;
              calls = refl;
              stored = x;
              was_accepted = u;
            })
          ])
    ])
  ]

  wrote-Runs :
      {h : List Call} {x : Result LoadBalancer × List Call}
      → Runs (update_once C R namespace name apply) h x
      → WroteIn x
  wrote-Runs {h} (last e) = rw e at (wrote_once h)
  wrote-Runs (again e rest) = wrote-Runs rest

  module _ (retries : HasRetry R) where
    -- The error that `UpdateLBWithRetries` forgives.
    abbrev pub Forgiven : List Call → Type 0
    Forgiven h =
        (before : List Call) × (R.retry_on_conflict (update_once C R namespace name apply) before
          ≡ (err precondition_violated, h))

    Written-of :
        (h : List Call) (x : Result LoadBalancer × List Call)
        → R.retry_on_conflict (update_once C R namespace name apply) h ≡ x
        → WroteIn x
        → (h' : List Call) → continue (observed x.0) retried x.1 ≡ (ok tt, h')
        → Written h' ⊎ Forgiven h'
    unfolding retried
    Written-of h (ok lb, h'') r w h' e =
        let same : h'' ≡ h' = ap (λ x. x.1) e in inl (subst Written same w)
    Written-of h (err precondition_violated, h'') r w h' e =
        let same : h'' ≡ h' = ap (λ x. x.1) e in
        inr (h, r ∙ ap (λ k. (err precondition_violated, k)) same)
    Written-of h (err not_found, h'') r w h' e = cc
    Written-of h (err already_exists, h'') r w h' e = cc
    Written-of h (err invalid, h'') r w h' e = cc
    Written-of h (err conflict, h'') r w h' e = cc
    Written-of h (err (server s), h'') r w h' e = cc
    Written-of h (err (message s), h'') r w h' e = cc
    Written-of h (panic, h'') r w h' e = cc
    Written-of h (blocked, h'') r w h' e = cc

    -- When `UpdateLBWithRetries` succeeds, then either its last two calls fetched the live load
    -- balancer and wrote what `apply` made of it, and the API server accepted that, or the retries
    -- ended in a violated precondition.
    pub update_lb_with_retries-Written :
        (h h' : List Call)
        → update_lb_with_retries C R namespace name apply h ≡ (ok tt, h')
        → Written h' ⊎ Forgiven h'
    unfolding update_lb_with_retries
    update_lb_with_retries-Written h h' e =
        Written-of h _ refl
          (wrote-Runs (retries.retry_runs (update_once C R namespace name apply) h)) h' e
