-- ===== src/RefManager/Objects/Fetches.antt =====
-- How often a Claim of deployments of pkg/util/controller/controller_ref_manager.go asks the API
-- server for the controller.
use loadbalancer_controller.Common.{
  ℕ, suc, ◌+◌, ◌≤◌, arith, String, none, some, List, [], ◌∷◌, inl, inr, Bool-cases, ◌||◌,
}
use loadbalancer_controller.Common.Effects.{
  is_not_found, is_invalid, Reply, Reply-cases, reply, failed, Result, ok, err, panic, blocked,
  Exec, continue, observed, pure,
}
use loadbalancer_controller.Api.{ObjectMeta, Deployment}
use loadbalancer_controller.Cluster.{Cluster, Library, Call, OwnerPatch, get_lb, patch_deployment}
use loadbalancer_controller.RefManager.{RefManager, Once, can_adopt}
use loadbalancer_controller.RefManager.Rechecks.{budget, IsBounded, claim_with-size}
use loadbalancer_controller.RefManager.Objects.{
  adopt_checked, release_patch, adopt_deployment, released, release_deployment, claim_deployments,
}

-- The requests for a load balancer among the calls.
abbrev pub fetches : List Call → ℕ
fetches [] = 0
fetches (get_lb namespace name ∷ h) = suc (fetches h)
fetches (c ∷ h) = fetches h

module _ (C : Cluster) (L : Library) (m : RefManager) where
  checked-IsBounded :
      (o : ObjectMeta) (namespace name : String) (p : OwnerPatch) (r x : Reply (Unit {0})) (n : ℕ)
      (h : List Call)
      → fetches h ≤ n
      → IsBounded fetches n
          (adopt_checked C L m "Deployment" o (patch_deployment namespace name p) (r, some x) h)
  unfolding adopt_checked
  checked-IsBounded o namespace name p (failed e) x n h b = omega (arith, b)
  checked-IsBounded o namespace name p (reply u) x n h b =
      elim (Reply-cases (C.accepted h (patch_deployment namespace name p))) [
        | inl (v, e) ↦ rw e (omega (arith, b))
        | inr (v, e) ↦ rw e (omega (arith, b))
      ]

  -- The recheck, whatever it answers, and then the patch.
  first-IsBounded :
      (o : ObjectMeta) (namespace name : String) (p : OwnerPatch) (n : ℕ)
      (out : Result (Unit {0}) × List Call)
      → fetches out.1 ≤ n
      → let (r, h) =
          continue {B = Reply (Unit {0}) × Once} (observed out.0) (λ r. pure (r, some r)) out.1 in
        IsBounded fetches n
          (continue r (adopt_checked C L m "Deployment" o (patch_deployment namespace name p)) h)
  first-IsBounded o namespace name p n (ok u, h) b =
      checked-IsBounded o namespace name p (reply u) (reply u) n h b
  first-IsBounded o namespace name p n (err e, h) b =
      checked-IsBounded o namespace name p (failed e) (failed e) n h b
  first-IsBounded o namespace name p n (panic, h) b = b
  first-IsBounded o namespace name p n (blocked, h) b = b

  released-fetches :
      (d : Deployment) (h : List Call) → fetches (release_deployment C L m d h).1 ≤ fetches h
  unfolding release_deployment released
  released-fetches d h =
      elim (Reply-cases
        (C.accepted h (patch_deployment d.namespace d.name (release_patch C L m d.uid)))) [
          | inl (v, e) ↦ rw e (omega arith)
          | inr (v, e) ↦ elim (Bool-cases (is_not_found v || is_invalid v)) [
            | inl expected ↦ rw (e, expected) (omega arith)
            | inr unexpected ↦ rw (e, unexpected) (omega arith)
          ]
        ]

module _ (C : Cluster) (L : Library) (m : RefManager) (recheck : Exec Call (Unit {0}))
    (once_only : (h : List Call) → fetches (recheck h).1 ≤ fetches h + 1) where
  -- A manager that rechecks.
  abbrev pub rechecking : RefManager
  rechecking = record m { can_adopt_func = some recheck }

  adopt_deployment-IsBounded :
      (d : Deployment) (once : Once) (h : List Call)
      → IsBounded fetches (fetches h + budget once) (adopt_deployment C L rechecking d once h)
  unfolding adopt_deployment can_adopt
  adopt_deployment-IsBounded d (some r) h =
      checked-IsBounded C L rechecking d.meta d.namespace d.name _ r r _ h (omega arith)
  adopt_deployment-IsBounded d none h =
      first-IsBounded C L rechecking d.meta d.namespace d.name _ _ (recheck h) (once_only h)

  -- If a recheck asks at most once, so does a claim.
  pub claim_deployments-fetches :
      (ds : List Deployment) (h : List Call)
      → fetches (claim_deployments C L rechecking ds h).1 ≤ fetches h + 1
  unfolding claim_deployments
  claim_deployments-fetches ds h =
      claim_with-size fetches L rechecking (λ (d : Deployment). d.meta)
        (adopt_deployment C L rechecking) (release_deployment C L rechecking)
        adopt_deployment-IsBounded (released-fetches C L rechecking) ds h
