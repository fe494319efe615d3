-- ===== src/RefManager/Held.antt =====
-- Claim of pkg/util/controller/controller_ref_manager.go where the controller holds all objects.
use loadbalancer_controller.Common.{
  true, ◌&&◌, Option, none, some, List, [], ◌∷◌, ◌++◌, string_eq, ◌≡◌, ◌∙◌, arith, All,
}
use loadbalancer_controller.Common.Effects.{Error, Reply, reply, ok, Exec}
use loadbalancer_controller.Api.{ObjectMeta, OwnerReference}
use loadbalancer_controller.Cluster.{Library, Call}
use loadbalancer_controller.RefManager.{RefManager, Once, claim_by, claim_loop, claim_with}
use loadbalancer_controller.RefManager.Claims.{is_owner, is_held}
use mathlib.Core.List.{append-nil, append_assoc}

module _ (L : Library) (m : RefManager) {A : Type 0} (meta_of : A → ObjectMeta)
    (adopt : A → Once → Exec Call (Reply (Unit {0}) × Once))
    (release : A → Exec Call (Unit {0})) where
  claim_by-held :
      (obj : A) (ref : Option OwnerReference) (once : Once) (h : List Call)
      → (is_owner m ref && L.matches m.selector (meta_of obj).labels) ≡ true
      → claim_by L m meta_of adopt release obj ref once h ≡ (ok (reply true, once), h)
  unfolding claim_by
  claim_by-held obj none once h held = cc
  claim_by-held obj (some ref) once h held = ground arith

  claim_loop-held :
      (objs : List A) (once : Once) (found : List A) (errs : List Error) (h : List Call)
      → All (λ o. is_held L m meta_of o ≡ true) objs
      → claim_loop L m meta_of adopt release objs once (found, errs) h
        ≡ (ok (found ++ objs, errs), h)
  unfolding claim_loop
  claim_loop-held [] once found errs h held = rw append-nil
  claim_loop-held (obj ∷ objs) once found errs h held =
      rw (claim_by-held obj _ once h held.0)
        (claim_loop-held objs once (found ++ obj ∷ []) errs h held.1 ∙ rw append_assoc)

  -- If the controller holds all objects and the selector matches them, `Claim` returns them all and
  -- makes no call.
  pub claim_with-held :
      (objs : List A) (h : List Call)
      → All (λ o. is_held L m meta_of o ≡ true) objs
      → claim_with L m meta_of adopt release objs h ≡ (ok (objs, L.new_aggregate []), h)
  unfolding claim_with
  claim_with-held objs h held = rw (claim_loop-held objs none [] [] h held)
