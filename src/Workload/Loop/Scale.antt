-- ===== src/Workload/Loop/Scale.antt =====
-- The deployments that the loop of sync in proxy/proxies/nginx/nginx.go and
-- provider/providers/ipvsdr/ipvsdr.go keeps and scales down.
use loadbalancer_controller.Common.{
  ℕ, String, Bool, true, false, not, ◌||◌, none, some, ◌≡◌, refl, ◌∙◌, arith, if◌then◌else◌,
  Bool-cases, inl, inr,
}
use loadbalancer_controller.Common.{List, [], ◌∷◌, ◌++◌, All, ◌==◌, nat_eq}
use loadbalancer_controller.Common.Effects.{Exec, ok, reply, ignore-call}
use loadbalancer_controller.Api.{LoadBalancer, Deployment}
use loadbalancer_controller.LbUtil.Copies.{deployment_deep_copy_lem}
use loadbalancer_controller.Cluster.{Cluster, Library, HasDeepCopy, Call, update_deployment}
use loadbalancer_controller.Workload.Loop.{
  scale_down, sync_one, sync_loop, is_generated, update_ensured,
}

or_true : (b : Bool) → (b || true) ≡ true
or_true true = refl
or_true false = refl

-- The deployment, with its replicas set to zero.
abbrev pub stopped : Deployment → Deployment
stopped d = record d { replicas = some 0 }

-- The updates that stop the deployments that still run, after the calls so far.
abbrev pub stopping_calls : LoadBalancer → List Deployment → List Call → List Call
stopping_calls lb [] h = h
stopping_calls lb (d ∷ ds) h =
    let rest = stopping_calls lb ds in
    elim d.replicas [
      | none ↦ rest h
      | some n ↦ if n == 0 then rest h else rest (update_deployment lb.namespace (stopped d) ∷ h)
    ]

-- The replicas are not nil.
abbrev pub HasReplicas : Deployment → Type 0
HasReplicas d = (n : ℕ) × (d.replicas ≡ some n)

module _ (C : Cluster) (L : Library) (D : HasDeepCopy L) (suffix : String)
    (ensure_deployment : Deployment → Deployment → Exec Call (Deployment × Bool))
    (lb : LoadBalancer) (desired : Deployment) where
  scale_down_lem :
      (d : Deployment) (h : List Call)
      → HasReplicas d
      → scale_down C L suffix ensure_deployment lb d h ≡ (ok tt, stopping_calls lb (d ∷ []) h)
  unfolding scale_down
  scale_down_lem d h (n, e) = elim (Bool-cases (n == 0)) [
    | inl down ↦ rw (deployment_deep_copy_lem L D d, e, down) refl
    | inr up ↦
        rw (deployment_deep_copy_lem L D d, e, up)
          (ignore-call (update_deployment lb.namespace (stopped d))
            (λ k. C.accepted k (update_deployment lb.namespace (stopped d))) h)
  ]

  stopping_calls-cons :
      (d : Deployment) (ds : List Deployment) (h : List Call)
      → stopping_calls lb (d ∷ ds) h ≡ stopping_calls lb ds (stopping_calls lb (d ∷ []) h)
  stopping_calls-cons d ds h = ground arith

  -- Once a deployment is ensured, all others are stopped.
  sync_loop-rest :
      (ds : List Deployment) (active : Deployment) (h : List Call)
      → All HasReplicas ds
      → sync_loop C L suffix ensure_deployment lb desired ds true active h
        ≡ (ok (true, active), stopping_calls lb ds h)
  unfolding sync_loop sync_one
  sync_loop-rest [] active h r = refl
  sync_loop-rest (d ∷ ds) active h r =
      rw
        (
          or_true (not (is_generated C L suffix ensure_deployment lb d)),
          scale_down_lem d h r.0,
          stopping_calls-cons d ds h,
        )
        (sync_loop-rest ds active (stopping_calls lb (d ∷ []) h) r.1)

  -- Deployments that do not have the generated prefix are stopped.
  sync_loop-foreign :
      (ds others : List Deployment) (active : Deployment) (h : List Call)
      → All HasReplicas ds
      → All (λ d. is_generated C L suffix ensure_deployment lb d ≡ false) ds
      → sync_loop C L suffix ensure_deployment lb desired (ds ++ others) false active h
        ≡ sync_loop C L suffix ensure_deployment lb desired others false active
            (stopping_calls lb ds h)
  unfolding sync_loop sync_one
  sync_loop-foreign [] others active h r f = refl
  sync_loop-foreign (d ∷ ds) others active h r f =
      rw (f.0, scale_down_lem d h r.0, stopping_calls-cons d ds h)
        (sync_loop-foreign ds others active (stopping_calls lb (d ∷ []) h) r.1 f.1)

  sync_loop-ensured :
      (after : List Deployment) (first start copy : Deployment) (changed : Bool) (h : List Call)
      → is_generated C L suffix ensure_deployment lb first ≡ true
      → All HasReplicas after
      → ensure_deployment desired first h ≡ (ok (copy, changed), h)
      → C.accepted h (update_deployment lb.namespace copy) ≡ reply tt
      → sync_loop C L suffix ensure_deployment lb desired (first ∷ after) false start h ≡ (
        ok (true, copy),
        stopping_calls lb after (if changed then update_deployment lb.namespace copy ∷ h else h),
      )
  unfolding sync_loop sync_one update_ensured
  sync_loop-ensured after first start copy true h g r ensured accepted =
      rw (g, ensured, accepted)
        (sync_loop-rest after copy (update_deployment lb.namespace copy ∷ h) r)
  sync_loop-ensured after first start copy false h g r ensured accepted =
      rw (g, ensured) (sync_loop-rest after copy h r)

  -- Of the existing deployments, the first one with the generated prefix becomes the active one,
  -- as ensured, and is updated if that has changed it. All others are stopped, in their order,
  -- where they still run. This holds if none of the others has nil replicas, the first one can be
  -- ensured, and the API server accepts its update.
  pub sync_loop-first :
      (before after : List Deployment) (first start copy : Deployment) (changed : Bool)
      (h : List Call)
      → All HasReplicas before
      → All (λ d. is_generated C L suffix ensure_deployment lb d ≡ false) before
      → is_generated C L suffix ensure_deployment lb first ≡ true
      → All HasReplicas after
      → ensure_deployment desired first (stopping_calls lb before h)
        ≡ (ok (copy, changed), stopping_calls lb before h)
      → C.accepted (stopping_calls lb before h) (update_deployment lb.namespace copy) ≡ reply tt
      → sync_loop C L suffix ensure_deployment lb desired (before ++ first ∷ after) false start h
        ≡ (
          ok (true, copy),
          stopping_calls lb after (
              if changed
              then update_deployment lb.namespace copy ∷ stopping_calls lb before h
              else stopping_calls lb before h),
        )
  sync_loop-first before after first start copy changed h rb fb ff ra ensured accepted =
      sync_loop-foreign before (first ∷ after) start h rb fb
      ∙ sync_loop-ensured after first start copy changed _ ff ra ensured accepted
