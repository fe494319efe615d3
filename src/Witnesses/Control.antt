-- ===== src/Witnesses/Control.antt =====
-- Examples for pkg/util/controller, the event handlers, the retries and the ipvsdr provider.
use loadbalancer_controller.Common.{
  String, Bool, true, false, none, some, ◌≡◌, refl, ◌⊎◌, List, [], ◌∷◌, keep_if, All, ◌==◌,
  string_eq, nat_eq, arith,
}
use loadbalancer_controller.Common.GoMap.{lookup}
use loadbalancer_controller.Common.Effects.{Reply, reply, ok, panic, message, Exec, pure, fail}
use loadbalancer_controller.Api.{ObjectMeta, LoadBalancer, Deployment}
use loadbalancer_controller.Cluster.{
  Call, Obj, load_balancer, deployment, lb_queue, forget, done, get_lb, update_lb,
  create_deployment,
}
use loadbalancer_controller.Witnesses.Samples.{
  library, cluster, routines, routines-HasRetry, named, sample_lb, internal_lb,
}
use loadbalancer_controller.RefManager.{RefManager, Once, claim_with}
use loadbalancer_controller.RefManager.Claims.{
  is_claimable, is_held, claim_with-claimable, claim_with-deleting,
}
use loadbalancer_controller.Helper.{Helper, passthrough_key_func}
use loadbalancer_controller.Helper.Retries.{
  CountsRequeues, AlwaysFails, after_rounds, after_rounds_lem,
}
use loadbalancer_controller.LbUtil.Retry.{update_lb_with_retries}
use loadbalancer_controller.LbUtil.Retry.Writes.{Written, Forgiven, update_lb_with_retries-Written}
use loadbalancer_controller.Ipvsdr.Selector.{Ipvsdr}
use loadbalancer_controller.Ipvsdr.Generate.{generate_deployment}
use loadbalancer_controller.Ipvsdr.Sync.{sync}
use loadbalancer_controller.Ipvsdr.Internal.{sync_absent}
use loadbalancer_controller.Handlers.Deployments.{DeploymentHandler, on_update}
use loadbalancer_controller.Handlers.Deployments.Updates.{on_update_alive}
use mathlib.Core.List.{Mem}

-- An object of the load balancer, an orphan, and an object of another one.
abbrev owned_by : ObjectMeta → String → ObjectMeta
owned_by m uid = record m {
  owner_references =
      record {
        api_version = "v1";
        kind = "LoadBalancer";
        name = "web";
        uid = uid;
        controller = some true;
        block_owner_deletion = some true;
      }
      ∷ [];
}

abbrev mine : ObjectMeta
mine = owned_by (named "d-1" "1") "lb-1"

abbrev orphan : ObjectMeta
orphan = named "d-2" "2"

abbrev theirs : ObjectMeta
theirs = owned_by (named "d-3" "3") "lb-2"

abbrev objects : List ObjectMeta
objects = mine ∷ orphan ∷ theirs ∷ []

abbrev manager : RefManager
manager = record {
  controller = named "web" "lb-1";
  selector = some (("app", "web") ∷ []);
  can_adopt_func = none;
  controller_kind = "LoadBalancer";
}

abbrev deleted_manager : RefManager
deleted_manager = record manager {
  controller = record (named "web" "lb-1") { deletion_timestamp = some 5 };
}

abbrev adopt : ObjectMeta → Once → Exec Call (Reply (Unit {0}) × Once)
adopt o once = pure (reply tt, once)

abbrev release : ObjectMeta → Exec Call (Unit {0})
release o = pure tt

abbrev meta_of : ObjectMeta → ObjectMeta
meta_of o = o

claim_with-claimable_example :
    All (λ o. (is_claimable library manager meta_of o ≡ true) × Mem o objects) (mine ∷ orphan ∷ [])
unfolding claim_with lookup
claim_with-claimable_example =
    claim_with-claimable library manager meta_of adopt release objects [] (mine ∷ orphan ∷ []) none
      [] refl

claim_with-deleting_example :
    claim_with library deleted_manager meta_of adopt release objects []
    ≡ (ok (keep_if (is_held library deleted_manager meta_of) objects, none), [])
claim_with-deleting_example =
    claim_with-deleting library deleted_manager meta_of adopt release refl objects []

-- A handler that always fails.
abbrev helper : Helper
helper = record { queue = lb_queue; key_func = passthrough_key_func }

abbrev item : Obj
item = load_balancer sample_lb

abbrev failing_sync : Obj → Exec Call (Unit {0})
failing_sync o = fail (message "failed")

abbrev counts : CountsRequeues cluster helper item
counts = record { after_retry = λ h. refl; after_forget = λ h. refl; after_done = λ h. refl }

abbrev failing : AlwaysFails cluster helper item failing_sync
failing = record {
  error = λ h. message "failed";
  calls = λ h. h;
  fails = λ h. refl;
  keeps_count = λ h. refl;
}

after_rounds_lem_example :
    let last = after_rounds cluster helper item failing_sync 3 [] in
    (cluster.num_requeues last lb_queue item ≡ 3)
    × (after_rounds cluster helper item failing_sync 4 []
        ≡ done lb_queue item ∷ forget lb_queue item ∷ last)
    × (cluster.num_requeues (after_rounds cluster helper item failing_sync 4 []) lb_queue item ≡ 0)
after_rounds_lem_example =
    after_rounds_lem cluster helper item failing_sync counts failing [] (omega arith)

-- The change of the specification that the example writes.
abbrev made_internal : LoadBalancer → Reply LoadBalancer
made_internal lb = reply internal_lb

update_lb_with_retries-Written_example :
    let calls = update_lb "prod" internal_lb ∷ get_lb "prod" "web" ∷ [] in
    Written cluster routines "prod" "web" made_internal calls
    ⊎ Forgiven cluster routines "prod" "web" made_internal routines-HasRetry calls
unfolding update_lb_with_retries
update_lb_with_retries-Written_example =
    update_lb_with_retries-Written cluster routines "prod" "web" made_internal routines-HasRetry []
      (update_lb "prod" internal_lb ∷ get_lb "prod" "web" ∷ []) refl

abbrev is_ip : String → Bool
is_ip s = s == "10.0.0.1"

abbrev provider : Ipvsdr
provider = record { image = "ipvsdr:1" }

sync_absent_example : sync cluster library routines is_ip provider [] internal_lb [] [] ≡ (
  panic,
  create_deployment "prod" (generate_deployment provider (cluster.int63 []) [] internal_lb) ∷ [],
)
sync_absent_example =
    sync_absent cluster internal_lb refl library routines is_ip provider [] [] refl

abbrev a_deployment : Deployment
a_deployment = record {
  meta = mine;
  replicas = some 1;
  template = record {
    labels = none;
    annotations = none;
    spec = record {
      host_network = true;
      termination_grace_period_seconds = none;
      affinity = none;
      tolerations = [];
      containers = [];
      volumes = [];
    };
  };
}

-- The deployment scaled to three, at a later version.
abbrev scaled : Deployment
scaled = record a_deployment { meta = record mine { resource_version = "2" }; replicas = some 3 }

abbrev handler : DeploymentHandler
handler = record { helper = helper; filtered = λ d. false }

on_update_alive_example :
    on_update cluster library handler (deployment a_deployment) (deployment scaled) [] ≡ (ok tt, [])
on_update_alive_example = on_update_alive cluster library handler a_deployment scaled [] refl refl
