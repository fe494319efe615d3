-- ===== src/Handlers/Deployments/Updates.antt =====
-- What OnUpdate of EventHandlerForDeployment does on a plain update.
use loadbalancer_controller.Common.{◌≡◌, none, List, arith}
use loadbalancer_controller.Common.Effects.{ok}
use loadbalancer_controller.Api.{Deployment}
use loadbalancer_controller.Cluster.{Cluster, Library, Call, deployment}
use loadbalancer_controller.Handlers.Deployments.{DeploymentHandler, on_update}

module _ (C : Cluster) (L : Library) (eh : DeploymentHandler) (old cur : Deployment) where
  -- An update of a deployment that is not being deleted, before or after, enqueues nothing, also
  -- where its specification, its labels or its controller have changed.
  pub on_update_alive :
      (h : List Call)
      → old.deletion_timestamp ≡ none
      → cur.deletion_timestamp ≡ none
      → on_update C L eh (deployment old) (deployment cur) h ≡ (ok tt, h)
  unfolding on_update
  on_update_alive h o c = ground arith
