-- ===== src/RefManager.antt =====
-- pkg/util/controller/controller_ref_manager.go
pub mod Claims
pub mod Held
pub mod Objects
pub mod Rechecks
use loadbalancer_controller.Common.{
  String, ◌<>◌, Bool, true, false, not, ◌||◌, Option, none, some, List, [], ◌∷◌, ◌++◌,
}
use loadbalancer_controller.Common.{◌==◌, string_eq, if◌then◌else◌, is_some}
use loadbalancer_controller.Common.Effects.{
  Error, message, is_not_found, is_invalid, Reply, reply, failed,
}
use loadbalancer_controller.Common.Effects.{
  Result, ok, err, panic, Exec, pure, call, attempt, ◌>>=◌, ◌>>◌,
}
use loadbalancer_controller.Common.GoMap.{GoMap}
use loadbalancer_controller.Api.{
  ObjectMeta, OwnerReference, Deployment, DaemonSet, load_balancer_kind,
}
use loadbalancer_controller.Cluster.{
  Cluster, Library, Call, OwnerPatch, add_controller, delete_owner,
}
use loadbalancer_controller.Cluster.{patch_deployment, patch_daemon_set}

-- What `canAdoptOnce` has done: nothing yet, or a call with its error.
abbrev pub Once : Type 0
Once = Option (Reply (Unit {0}))

-- `baseControllerRefManager`, and the kind of the managers that extend it. `canAdoptOnce` and
-- `canAdoptErr` are the state `Once` that is passed along.
pub record RefManager : Type 0 where
  pub controller : ObjectMeta
  pub selector : GoMap
  pub can_adopt_func : Option (Exec Call (Unit {0}))
  pub controller_kind : String

module _ (m : RefManager) where
  run_once : Option (Exec Call (Unit {0})) → Exec Call (Reply (Unit {0}))
  run_once none = pure (reply tt)
  run_once (some f) = attempt f

  -- `canAdopt`
  unfoldable pub can_adopt : Once → Exec Call (Reply (Unit {0}) × Once)
  unfolding run_once
  can_adopt (some r) = pure (r, some r)
  can_adopt none = run_once m.can_adopt_func >>= λ r. pure (r, some r)

-- An object that is not found is not claimed, and that is no error.
unclaimed : Error → Reply Bool
unclaimed e = if is_not_found e then reply false else failed e

after_release : Once → Reply (Unit {0}) → Exec Call (Reply Bool × Once)
unfolding unclaimed
after_release once (reply u) = pure (reply false, once)
after_release once (failed e) = pure (unclaimed e, once)

after_adopt : Reply (Unit {0}) × Once → Exec Call (Reply Bool × Once)
unfolding unclaimed
after_adopt (reply u, once) = pure (reply true, once)
after_adopt (failed e, once) = pure (unclaimed e, once)

module _ (L : Library) (m : RefManager) {A : Type 0} (meta_of : A → ObjectMeta) where
  -- The selector of the manager matches the labels.
  abbrev pub matches_selector : A → Bool
  matches_selector obj = L.matches m.selector (meta_of obj).labels

  module _ (adopt : A → Once → Exec Call (Reply (Unit {0}) × Once))
      (release : A → Exec Call (Unit {0})) where
    -- The part of `claimObject` for an object that has a controller.
    unfoldable pub claim_owned : A → OwnerReference → Once → Exec Call (Reply Bool × Once)
    unfolding after_release
    claim_owned obj ref once =
        if not (ref.uid == m.controller.uid)
        then pure (reply false, once)
        else if matches_selector obj
        then pure (reply true, once)
        else if is_some m.controller.deletion_timestamp
        then pure (reply false, once)
        else (attempt (release obj) >>= after_release once)

    -- The part for an orphan.
    unfoldable pub claim_orphan : A → Once → Exec Call (Reply Bool × Once)
    unfolding after_adopt
    claim_orphan obj once =
        if is_some m.controller.deletion_timestamp || not (matches_selector obj)
        then pure (reply false, once)
        else if is_some (meta_of obj).deletion_timestamp
        then pure (reply false, once)
        else (adopt obj once >>= after_adopt)

    claim_by : A → Option OwnerReference → Once → Exec Call (Reply Bool × Once)
    unfolding claim_owned claim_orphan
    claim_by obj none once = claim_orphan obj once
    claim_by obj (some ref) once = claim_owned obj ref once

    -- `claimObject`
    unfoldable pub claim_object : A → Once → Exec Call (Reply Bool × Once)
    unfolding claim_by
    claim_object obj once = claim_by obj (L.get_controller_of (meta_of obj)) once

    -- What the loop of `Claim` does with the answer: the objects and the errors so far.
    unfoldable pub collect : A → Reply Bool → List A × List Error → List A × List Error
    collect obj (reply true) (claimed, errs) = (claimed ++ obj ∷ [], errs)
    collect obj (reply false) (claimed, errs) = (claimed, errs)
    collect obj (failed e) (claimed, errs) = (claimed, errs ++ e ∷ [])

    -- The loop of `Claim`.
    unfoldable pub claim_loop :
        List A → Once → List A × List Error → Exec Call (List A × List Error)
    unfolding claim_object collect
    claim_loop [] once found = pure found
    claim_loop (obj ∷ objs) once found =
        claim_object obj once >>= λ (r, once'). claim_loop objs once' (collect obj r found)

    -- `Claim`: the objects that are owned, and the aggregate of the errors.
    unfoldable pub claim_with : List A → Exec Call (List A × Option Error)
    unfolding claim_loop
    claim_with objs =
        claim_loop objs none ([], []) >>= λ (claimed, errs). pure (claimed, L.new_aggregate errs)
