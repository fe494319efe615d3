-- ===== src/Controller/Nodes/Release.antt =====
-- The nodes that a load balancer no longer wants, in doLabelAndTaints of
-- controller/lb_controller.go.
use loadbalancer_controller.Common.{
  String, Bool, true, false, not, none, some, ◌≡◌, refl, ap, arith, if◌then◌else◌, Bool-cases, inl,
  inr,
}
use loadbalancer_controller.Common.{List, [], ◌∷◌, is_empty, items, keep_if, ◌==◌, string_eq}
use loadbalancer_controller.Common.Effects.{ok, reply, for_each}
use loadbalancer_controller.Common.GoMap.{GoMap, delete, get, lookup, lookup-erase}
use loadbalancer_controller.Common.Labels.{without_labels}
use loadbalancer_controller.Api.{LoadBalancer, Node, unique_label_key, taint_key}
use loadbalancer_controller.Cluster.{
  Obj, Cluster, Library, HasTaintHelpers, HasDeepCopy, Call, patch_node,
}
use loadbalancer_controller.Taints.Reorganize.{AreDistinct, reorganize_taints-delete_key}
use loadbalancer_controller.Controller.Nodes.{
  node_labels, node_changed, patch_if_changed, released_node, release_node, nodes_diff, sync_nodes,
}
use loadbalancer_controller.Validation.{validate_load_balancer}

get-delete :
    (key other : String) (m : GoMap)
    → get other (delete key m) ≡ (if key == other then none else get other m)
unfolding delete lookup
get-delete key other none = ground arith
get-delete key other (some m) = lookup-erase m key other

module _ (C : Cluster) (L : Library) (H : HasTaintHelpers L) where
  -- A released node has lost the label of the load balancer and keeps all others, and of its taints,
  -- which have distinct keys and effects, it has lost exactly those of the controller's key.
  pub released_node_lem :
      (lb : LoadBalancer) (node : Node)
      → AreDistinct L (items node.taints)
      → ((key : String)
          → get key (released_node C L (node_labels lb) node).labels
            ≡ (if unique_label_key lb.namespace lb.name == key then none else get key node.labels))
        × ((released_node C L (node_labels lb) node).taints
            ≡ some (keep_if (λ t. not (taint_key == t.key)) (items node.taints)))
  unfolding released_node without_labels
  released_node_lem lb node d = (
    λ key. get-delete (unique_label_key lb.namespace lb.name) key node.labels,
    ap some (reorganize_taints-delete_key L H node false taint_key "" d),
  )

module _ (C : Cluster) (L : Library) (D : HasDeepCopy L)
    (accepts : (h : List Call) (c : Call) → C.accepted h c ≡ reply tt) where
  -- The patches of the nodes that a release changes, after the calls so far.
  pub released_calls : LoadBalancer → List Node → List Call → List Call
  released_calls lb [] h = h
  released_calls lb (n ∷ ns) h =
      let released = released_node C L (node_labels lb) n in
      let rest = released_calls lb ns in
      if node_changed n released then rest (patch_node n.name n released ∷ h) else rest h

  release_all :
      (lb : LoadBalancer) (ns : List Node) (h : List Call)
      → for_each ns (release_node C L (node_labels lb)) h ≡ (ok tt, released_calls lb ns h)
  unfolding for_each release_node released_calls patch_if_changed
  release_all lb [] h = refl
  release_all lb (n ∷ ns) h =
      let released = released_node C L (node_labels lb) n in
      elim (Bool-cases (node_changed n released)) [
        | inl changed ↦
            rw (D.deep_copy_lem (Obj.node n), changed, D.merge_patch_lem n released, accepts)
              (release_all lb ns (patch_node n.name n released ∷ h))
        | inr same ↦ rw (D.deep_copy_lem (Obj.node n), same) (release_all lb ns h)
      ]

  -- The sync of a valid load balancer that names no node, as is that of one that is deleted,
  -- patches each node that still has its label into the released node, if they differ, and makes
  -- no other call. This holds where the API server accepts the patches.
  pub sync_nodes-release :
      (is_ip : String → Bool) (lb : LoadBalancer) (old : List Node) (h : List Call)
      → validate_load_balancer is_ip lb ≡ none
      → is_empty (items lb.spec.nodes.names) ≡ true
      → C.cached_nodes h (some (node_labels lb)) ≡ reply old
      → sync_nodes C L is_ip lb h ≡ (ok tt, released_calls lb old h)
  unfolding sync_nodes nodes_diff
  sync_nodes-release is_ip lb old h valid unnamed listed =
      rw (valid, unnamed, listed, release_all lb old h)
