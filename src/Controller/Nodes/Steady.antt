-- ===== src/Controller/Nodes/Steady.antt =====
-- A second sync of the nodes, doLabelAndTaints of controller/lb_controller.go.
use loadbalancer_controller.Common.{
  String, Bool, true, false, not, ◌&&◌, Option, none, some, ◌≡◌, refl, sym, ap, ◌∙◌,
}
use loadbalancer_controller.Common.{
  List, [], ◌∷◌, is_empty, items, keep_if, keep_if-id, All-keep_if, All, ◌==◌, string_eq,
  if◌then◌else◌,
}
use loadbalancer_controller.Common.Effects.{ok, reply, for_each}
use loadbalancer_controller.Common.GoMap.{Entries, insert, deep_equal_refl, insert-insert}
use loadbalancer_controller.Common.Labels.{with_labels}
use loadbalancer_controller.Api.{LoadBalancer, Node, Taint, unique_label_key, taint_key, taints_eq}
use loadbalancer_controller.Cluster.{Obj, Cluster, Library, HasTaintHelpers, HasDeepCopy, Call}
use loadbalancer_controller.Taints.{reorganize_taints}
use loadbalancer_controller.Taints.Reorganize.{
  AreDistinct, keep_if-AreDistinct, reorganize_taints-add_twice, reorganize_taints-delete_key,
}
use loadbalancer_controller.Controller.Nodes.{
  VerifiedNodes, node_labels, taints_for, key_taint, dedicated_taint, node_changed,
  patch_if_changed, held_taints, hold_node, nodes_of, nodes_diff, sync_nodes,
}
use loadbalancer_controller.Validation.{validate_load_balancer}

-- What `getVerifiedNodes` wants for a load balancer that names nodes.
abbrev pub wanted : LoadBalancer → List Node → VerifiedNodes
wanted lb nodes = record {
  nodes = nodes;
  taints_to_add = (taints_for lb lb.spec.nodes.effect).0;
  taints_to_delete = (taints_for lb lb.spec.nodes.effect).1;
  labels = node_labels lb;
}

-- The node with the label and the taints of the load balancer, from a node with these labels.
abbrev pub held : Cluster → Library → LoadBalancer → List Node → Entries → Node → Node
held C L lb nodes labels node = record {
  meta = record node.meta {
    labels = some (insert (unique_label_key lb.namespace lb.name) "true" labels);
  };
  taints = held_taints C L (wanted lb nodes) node;
}

module _ (C : Cluster) (L : Library) where
  node_changed_refl : (n : Node) → node_changed n n ≡ false
  unfolding node_changed
  node_changed_refl n =
      rw (deep_equal_refl n.labels, (taints_eq.equals_iff n.taints n.taints).1 refl)

  pub patch_if_changed_refl : (n : Node) (h : List Call) → patch_if_changed C L n n h ≡ (ok tt, h)
  unfolding patch_if_changed
  patch_if_changed_refl n h = rw node_changed_refl

module _ (C : Cluster) (L : Library) (H : HasTaintHelpers L) where
  reorganize_taints-delete_twice :
      (node again : Node)
      → AreDistinct L (items node.taints)
      → items again.taints ≡ (reorganize_taints L node true [] (key_taint ∷ [])).1
      → (reorganize_taints L again true [] (key_taint ∷ [])).1
        ≡ (reorganize_taints L node true [] (key_taint ∷ [])).1
  reorganize_taints-delete_twice node again d e =
      let q : Taint → Bool = λ u. not (taint_key == u.key) in
      let first = reorganize_taints-delete_key L H node true taint_key "" d in
      let kept : items again.taints ≡ keep_if q (items node.taints) = e ∙ first in
      reorganize_taints-delete_key L H again true taint_key ""
        (rw kept (keep_if-AreDistinct L q (items node.taints) d))
      ∙ ap (keep_if q) kept
      ∙ keep_if-id q _ (All-keep_if q (items node.taints))
      ∙ sym first

  reorganize_taints-again :
      (lb : LoadBalancer) (effect : Option String) (node again : Node)
      → AreDistinct L (items node.taints)
      → let (to_add, to_delete) = taints_for lb effect in
        items again.taints ≡ (reorganize_taints L node true to_add to_delete).1
        → (reorganize_taints L again true to_add to_delete).1
          ≡ (reorganize_taints L node true to_add to_delete).1
  reorganize_taints-again lb none node again d e = reorganize_taints-delete_twice node again d e
  reorganize_taints-again lb (some effect) node again d e =
      reorganize_taints-add_twice L H (dedicated_taint lb effect) node again true true d e

-- The choice of `held_taints`: an empty list that is new does not replace one that is old.
abbrev chosen : Option (List Taint) → List Taint → Option (List Taint)
chosen old new = if is_empty (items old) && is_empty new then old else some new

items-chosen : (old : Option (List Taint)) (new : List Taint) → items (chosen old new) ≡ new
items-chosen none [] = refl
items-chosen none (t ∷ new) = refl
items-chosen (some []) [] = refl
items-chosen (some []) (t ∷ new) = refl
items-chosen (some (o ∷ old)) new = refl

chosen-chosen :
    (old : Option (List Taint)) (new : List Taint) → chosen (chosen old new) new ≡ chosen old new
chosen-chosen none [] = refl
chosen-chosen none (t ∷ new) = refl
chosen-chosen (some []) [] = refl
chosen-chosen (some []) (t ∷ new) = refl
chosen-chosen (some (o ∷ old)) [] = refl
chosen-chosen (some (o ∷ old)) (t ∷ new) = refl

module _ (C : Cluster) (L : Library) (H : HasTaintHelpers L) where
  held_taints-again :
      (lb : LoadBalancer) (nodes : List Node) (node again : Node)
      → AreDistinct L (items node.taints)
      → again.taints ≡ held_taints C L (wanted lb nodes) node
      → held_taints C L (wanted lb nodes) again ≡ held_taints C L (wanted lb nodes) node
  unfolding held_taints
  held_taints-again lb nodes node again d e =
      let (to_add, to_delete) = taints_for lb lb.spec.nodes.effect in
      let new = (reorganize_taints L node true to_add to_delete).1 in
      let same =
        reorganize_taints-again C L H lb lb.spec.nodes.effect node again d
          (ap items e ∙ items-chosen node.taints new) in
      ap (chosen again.taints) same ∙ ap (λ o. chosen o new) e ∙ chosen-chosen node.taints new

module _ (C : Cluster) (L : Library) (H : HasTaintHelpers L) (D : HasDeepCopy L) where
  -- What `doLabelAndTaints` wants of a node that the load balancer names, and whose labels are not
  -- nil, is this node with the label and the taints of the load balancer.
  hold_node_lem :
      (lb : LoadBalancer) (nodes : List Node) (node : Node) (labels : Entries) (h : List Call)
      → node.labels ≡ some labels
      → hold_node C L (wanted lb nodes) node h
        ≡ patch_if_changed C L node (held C L lb nodes labels node) h
  unfolding hold_node with_labels
  hold_node_lem lb nodes node labels h e = rw (D.deep_copy_lem (Obj.node node), e)

  -- A node that was made by the sync from one with distinct taints and labels that are not nil.
  pub record IsHeld (lb : LoadBalancer) (nodes : List Node) (n : Node) : Type 0 where
    pub before : Node
    pub labels : Entries
    pub distinct : AreDistinct L (items before.taints)
    pub made : n ≡ held C L lb nodes labels before

  hold_node-again :
      (lb : LoadBalancer) (nodes : List Node) (n : Node) (h : List Call)
      → IsHeld lb nodes n
      → hold_node C L (wanted lb nodes) n h ≡ (ok tt, h)
  hold_node-again lb nodes n h i =
      let n' : Node = held C L lb nodes i.labels i.before in
      let fixed : held C L lb nodes (insert (unique_label_key lb.namespace lb.name) "true" i.labels)
            n'
          ≡ n' =
        rw (
          insert-insert (unique_label_key lb.namespace lb.name) "true" i.labels,
          held_taints-again C L H lb nodes i.before n' i.distinct refl,
        ) in
      rw i.made (hold_node_lem lb nodes n' _ h refl ∙ rw fixed (patch_if_changed_refl C L n' h))

  for_each-hold_node :
      (lb : LoadBalancer) (nodes ns : List Node) (h : List Call)
      → All (IsHeld lb nodes) ns
      → for_each ns (hold_node C L (wanted lb nodes)) h ≡ (ok tt, h)
  unfolding for_each
  for_each-hold_node lb nodes [] h a = refl
  for_each-hold_node lb nodes (n ∷ ns) h a =
      rw (hold_node-again lb nodes n h a.0) (for_each-hold_node lb nodes ns h a.1)

  -- For a valid load balancer that names nodes: if each node that the lister finds of them is what
  -- a sync has made of a node with labels and with taints of distinct keys and effects, and no
  -- other node has the label of the load balancer, then another sync makes no call.
  pub sync_nodes-again :
      (is_ip : String → Bool) (lb : LoadBalancer) (old : List Node) (h : List Call)
      → validate_load_balancer is_ip lb ≡ none
      → is_empty (items lb.spec.nodes.names) ≡ false
      → C.cached_nodes h (some (node_labels lb)) ≡ reply old
      → nodes_diff old (nodes_of C L is_ip (items lb.spec.nodes.names) h) ≡ []
      → All
          (IsHeld lb (nodes_of C L is_ip (items lb.spec.nodes.names) h))
          (nodes_of C L is_ip (items lb.spec.nodes.names) h)
      → sync_nodes C L is_ip lb h ≡ (ok tt, h)
  unfolding sync_nodes
  sync_nodes-again is_ip lb old h valid named listed none_left all_held =
      rw (valid, named, listed, none_left) (for_each-hold_node lb _ _ h all_held)
