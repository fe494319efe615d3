-- ===== src/RefManager/Objects.antt =====
-- The managers of DaemonSets and Deployments of pkg/util/controller/controller_ref_manager.go.
pub mod Fetches
use loadbalancer_controller.Common.{String, ◌<>◌, Option, some, List, if◌then◌else◌, ◌||◌}
use loadbalancer_controller.Common.Effects.{
  Error, message, is_not_found, is_invalid, Reply, reply, failed,
}
use loadbalancer_controller.Common.Effects.{Exec, pure, fail, call, attempt, ◌>>=◌}
use loadbalancer_controller.Common.GoMap.{GoMap}
use loadbalancer_controller.Api.{ObjectMeta, Deployment, DaemonSet}
use loadbalancer_controller.Cluster.{
  Cluster, Library, Call, OwnerPatch, add_controller, delete_owner,
}
use loadbalancer_controller.Cluster.{patch_deployment, patch_daemon_set}
use loadbalancer_controller.RefManager.{RefManager, Once, can_adopt, claim_with}

-- `NewDeploymentControllerRefManager`
abbrev pub new_ref_manager : ObjectMeta → GoMap → String → Exec Call (Unit {0}) → RefManager
new_ref_manager controller selector kind can_adopt = record {
  controller = controller;
  selector = selector;
  can_adopt_func = some can_adopt;
  controller_kind = kind;
}

-- `NewDaemonSetControllerRefManager`
abbrev pub new_daemon_set_ref_manager :
    ObjectMeta → GoMap → String → Exec Call (Unit {0}) → RefManager
new_daemon_set_ref_manager controller selector kind can_adopt = record {
  controller = controller;
  selector = selector;
  can_adopt_func = some can_adopt;
  controller_kind = kind;
}

-- A patch that is refused since the object is gone, or has no such owner, is no error.
released : Reply (Unit {0}) → Exec Call (Unit {0})
released (reply u) = pure tt
released (failed e) = if is_not_found e || is_invalid e then pure tt else fail e

module _ (C : Cluster) (L : Library) (m : RefManager) where
  -- The two patches, for an object of the given uid.
  abbrev adopt_patch : String → OwnerPatch
  adopt_patch uid = add_controller m.controller_kind m.controller.name m.controller.uid uid

  abbrev release_patch : String → OwnerPatch
  release_patch uid = delete_owner m.controller.uid uid

  abbrev send : Call → Exec Call (Unit {0})
  send c = call c (λ h. C.accepted h c)

  -- The error of an adoption that the recheck forbids.
  abbrev cannot_adopt : String → ObjectMeta → Error → Error
  cannot_adopt kind o e = message (
      "can't adopt "
      <> kind
      <> " "
      <> o.namespace
      <> "/"
      <> o.name
      <> " ("
      <> o.uid
      <> "): "
      <> L.error_text e)

  -- The patch is sent if the recheck has succeeded.
  adopt_checked :
      String → ObjectMeta → Call → Reply (Unit {0}) × Once → Exec Call (Reply (Unit {0}) × Once)
  adopt_checked kind o patch (failed e, once) = pure (failed (cannot_adopt kind o e), once)
  adopt_checked kind o patch (reply u, once) = attempt (send patch) >>= λ r. pure (r, once)

  -- `Adopt` of the deployments' manager
  unfoldable pub adopt_deployment : Deployment → Once → Exec Call (Reply (Unit {0}) × Once)
  unfolding adopt_checked
  adopt_deployment d once =
      can_adopt m once
      >>= adopt_checked "Deployment" d.meta
          (patch_deployment d.namespace d.name (adopt_patch d.uid))

  -- `Release` of the deployments' manager
  unfoldable pub release_deployment : Deployment → Exec Call (Unit {0})
  unfolding released
  release_deployment d =
      attempt (send (patch_deployment d.namespace d.name (release_patch d.uid))) >>= released

  -- `Claim` of the deployments' manager
  unfoldable pub claim_deployments : List Deployment → Exec Call (List Deployment × Option Error)
  unfolding claim_with
  claim_deployments =
      claim_with L m (λ (d : Deployment). d.meta) adopt_deployment release_deployment

  -- `Adopt` of the daemon sets' manager
  unfoldable pub adopt_daemon_set : DaemonSet → Once → Exec Call (Reply (Unit {0}) × Once)
  unfolding adopt_checked
  adopt_daemon_set ds once =
      can_adopt m once
      >>= adopt_checked "DaemontSet" ds.meta
          (patch_daemon_set ds.namespace ds.name (adopt_patch ds.uid))

  -- `Release` of the daemon sets' manager
  unfoldable pub release_daemon_set : DaemonSet → Exec Call (Unit {0})
  unfolding released
  release_daemon_set ds =
      attempt (send (patch_daemon_set ds.namespace ds.name (release_patch ds.uid))) >>= released

  -- `Claim` of the daemon sets' manager
  unfoldable pub claim_daemon_sets : List DaemonSet → Exec Call (List DaemonSet × Option Error)
  unfolding claim_with
  claim_daemon_sets = claim_with L m (λ (d : DaemonSet). d.meta) adopt_daemon_set release_daemon_set
