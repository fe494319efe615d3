-- ===== src/Witnesses/Nodes.antt =====
-- Examples for the controller's nodes and events.
use loadbalancer_controller.Common.{
  String, Bool, not, none, some, ◌≡◌, refl, [], ◌∷◌, keep_if, items, ◌==◌, string_eq, if◌then◌else◌,
}
use loadbalancer_controller.Common.GoMap.{Entries, get}
use loadbalancer_controller.Common.Effects.{reply, ok}
use loadbalancer_controller.Api.{Taint, Node, unique_label_key, taint_key}
use loadbalancer_controller.Cluster.{Cluster}
use loadbalancer_controller.Witnesses.Samples.{
  library, library-HasTaintHelpers, library-HasDeepCopy, cluster, named, sample_lb,
}
use loadbalancer_controller.Controller.Sync.{without_nodes}
use loadbalancer_controller.Controller.Nodes.{
  node_labels, released_node, sync_nodes, nodes_diff, nodes_of, held_taints,
}
use loadbalancer_controller.Taints.{reorganize_taints}
use loadbalancer_controller.Validation.{validate_load_balancer}
use loadbalancer_controller.Controller.Nodes.Steady.{held, sync_nodes-again}
use loadbalancer_controller.Controller.Nodes.Release.{
  released_node_lem, released_calls, sync_nodes-release,
}
use loadbalancer_controller.Cluster.{load_balancer, update_lb}
use loadbalancer_controller.Controller.Events.{reverted, update_load_balancer}
use loadbalancer_controller.Controller.Events.Forbidden.{update_load_balancer-forbidden}
use loadbalancer_controller.Api.{LoadBalancer}

abbrev own_taint : Taint
own_taint = record { key = "gpu"; value = "true"; effect = "NoSchedule" }

abbrev plain_node : Node
plain_node = record { meta = named "node-1" "n-1"; taints = some (own_taint ∷ []) }

abbrev plain_labels : Entries
plain_labels = ("app", "web") ∷ []

-- The node once it has the label and the taint of the load balancer.
abbrev held_node : Node
held_node = held cluster library sample_lb [] plain_labels plain_node

abbrev steady_cluster : Cluster
steady_cluster = record cluster {
  cached_node = λ h name. reply held_node;
  cached_nodes = λ h s. reply (held_node ∷ []);
}

abbrev is_ip : String → Bool
is_ip s = s == "10.0.0.1"

sync_nodes-again_example : sync_nodes steady_cluster library is_ip sample_lb [] ≡ (ok tt, [])
unfolding nodes_diff validate_load_balancer nodes_of held_taints
sync_nodes-again_example =
    sync_nodes-again steady_cluster library library-HasTaintHelpers library-HasDeepCopy is_ip
      sample_lb (held_node ∷ []) [] refl refl refl refl
      (record { before = plain_node; labels = plain_labels; distinct = (tt, tt); made = refl }, tt)

released_node_lem_example :
    ((key : String)
      → get key (released_node cluster library (node_labels sample_lb) held_node).labels
        ≡ (if unique_label_key "prod" "web" == key then none else get key held_node.labels))
    × ((released_node cluster library (node_labels sample_lb) held_node).taints
        ≡ some (keep_if (λ t. not (taint_key == t.key)) (items held_node.taints)))
unfolding held_taints reorganize_taints
released_node_lem_example =
    released_node_lem cluster library library-HasTaintHelpers sample_lb held_node
      ((refl, tt), (tt, tt))

sync_nodes-release_example :
    sync_nodes steady_cluster library is_ip (without_nodes sample_lb) [] ≡ (
      ok tt,
      released_calls steady_cluster library library-HasDeepCopy
          (λ h c. refl)
          (without_nodes sample_lb)
          (held_node ∷ [])
          [],
    )
unfolding validate_load_balancer
sync_nodes-release_example =
    sync_nodes-release steady_cluster library library-HasDeepCopy (λ h c. refl) is_ip
      (without_nodes sample_lb) (held_node ∷ []) [] refl refl refl

-- The load balancer before its type was changed.
abbrev before_change : LoadBalancer
before_change = record sample_lb { spec = record (sample_lb.spec) { kind = "internal" } }

abbrev after_change : LoadBalancer
after_change = record sample_lb { meta = record (named "web" "lb-1") { resource_version = "2" } }

update_load_balancer-forbidden_example :
    (update_load_balancer cluster library
        (load_balancer before_change)
        (load_balancer after_change)
        []
      ≡ (ok tt, update_lb "prod" (reverted before_change after_change) ∷ []))
    × ((reverted before_change after_change).spec.kind ≡ "internal")
update_load_balancer-forbidden_example =
    update_load_balancer-forbidden cluster library library-HasDeepCopy before_change after_change []
      refl refl
