-- ===== src/Controller/Nodes.antt =====
-- The nodes of a load balancer: getVerifiedNodes of controller/utils.go, and nodesDiff and
-- doLabelAndTaints of controller/lb_controller.go.
pub mod Steady
pub mod Release
use loadbalancer_controller.Common.{String, Bool, true, false, not, ◌&&◌, ◌||◌, Option, none, some}
use loadbalancer_controller.Common.{List, [], ◌∷◌, is_empty, items, any_of, keep_if, ◌==◌}
use loadbalancer_controller.Common.{string_eq, if◌then◌else◌}
use loadbalancer_controller.Common.Effects.{
  Reply, reply, failed, Exec, pure, fail, crash, lift, call, for_each,
}
use loadbalancer_controller.Common.Effects.{Error, ◌>>=◌, ◌>>◌}
use loadbalancer_controller.Common.GoMap.{Entries, deep_equal}
use loadbalancer_controller.Common.Labels.{without_labels, with_labels}
use loadbalancer_controller.Api.{
  LoadBalancer, Node, Taint, unique_label_key, taint_key, taint_value, taints_eq,
}
use loadbalancer_controller.Cluster.{Obj, Cluster, Library, Call, patch_node}
use loadbalancer_controller.Validation.{validate_load_balancer}
use loadbalancer_controller.Taints.{reorganize_taints}

-- `VerifiedNodes`; its labels are a map that is not nil.
pub record VerifiedNodes : Type 0 where
  pub nodes : List Node
  pub taints_to_add : List Taint
  pub taints_to_delete : List Taint
  pub labels : Entries

-- A taint by key alone.
abbrev pub key_taint : Taint
key_taint = record { key = taint_key; value = ""; effect = "" }

-- The label of the nodes of a load balancer.
abbrev pub node_labels : LoadBalancer → Entries
node_labels lb = (unique_label_key lb.namespace lb.name, "true") ∷ []

-- The taint that dedicates a node to a load balancer.
abbrev pub dedicated_taint : LoadBalancer → String → Taint
dedicated_taint lb effect = record {
  key = taint_key;
  value = taint_value lb.namespace lb.name;
  effect = effect;
}

-- The taints to add and to delete for load balancer with nodes, by its effect.
abbrev pub taints_for : LoadBalancer → Option String → List Taint × List Taint
taints_for lb none = ([], key_taint ∷ [])
taints_for lb (some effect) = (dedicated_taint lb effect ∷ [], [])

module _ (C : Cluster) (L : Library) (is_ip : String → Bool) where
  -- A node that the lister does not find is left out.
  add_node : Reply Node → List Node → List Node
  add_node (failed e) ns = ns
  add_node (reply n) ns = n ∷ ns

  -- The loop over the names.
  unfoldable pub nodes_of : List String → List Call → List Node
  unfolding add_node
  nodes_of [] h = []
  nodes_of (name ∷ names) h = add_node (C.cached_node h name) (nodes_of names h)

  verified : LoadBalancer → List Call → VerifiedNodes
  unfolding nodes_of
  verified lb h =
      if is_empty (items lb.spec.nodes.names)
      then record {
        nodes = [];
        taints_to_add = [];
        taints_to_delete = key_taint ∷ [];
        labels = node_labels lb;
      }
      else record {
        nodes = nodes_of (items lb.spec.nodes.names) h;
        taints_to_add = (taints_for lb lb.spec.nodes.effect).0;
        taints_to_delete = (taints_for lb lb.spec.nodes.effect).1;
        labels = node_labels lb;
      }

  verified_unless : Option Error → LoadBalancer → Exec Call VerifiedNodes
  unfolding verified
  verified_unless (some e) lb h = fail e h
  verified_unless none lb h = pure (verified lb h) h

  -- `getVerifiedNodes`
  unfoldable pub get_verified_nodes : LoadBalancer → Exec Call VerifiedNodes
  unfolding verified_unless
  get_verified_nodes lb = verified_unless (validate_load_balancer is_ip lb) lb

-- `nodesDiff`
unfoldable pub nodes_diff : List Node → List Node → List Node
nodes_diff old desired =
    if is_empty desired
    then old
    else keep_if (λ o. not (any_of (λ (d : Node). o.name == d.name) desired)) old

-- The label or the taints differ.
unfoldable pub node_changed : Node → Node → Bool
node_changed a b = not (deep_equal a.labels b.labels) || not (a.taints == b.taints)

module _ (C : Cluster) (L : Library) where
  -- The type assertion, which panics on a failed copy.
  copied : Reply Obj → Exec Call Node
  copied (reply (Obj.node copy)) = pure copy
  copied r = crash

  -- `copy, _ := DeepCopy(node)` and the type assertion.
  unfoldable pub copy_node : Node → Exec Call Node
  unfolding copied
  copy_node n = copied (L.deep_copy (Obj.node n))

  -- The patch from the node to the copy, if they differ.
  unfoldable pub patch_if_changed : Node → Node → Exec Call (Unit {0})
  unfolding node_changed
  patch_if_changed node copy =
      if node_changed node copy
      then (lift (L.merge_patch node copy)
          >> call (patch_node node.name node copy)
              (λ h. C.accepted h (patch_node node.name node copy)))
      else pure tt

  -- What is wanted of a node that is to be released.
  unfoldable pub released_node : Entries → Node → Node
  released_node labels copy = record {
    meta = record copy.meta { labels = without_labels labels copy.labels };
    taints = some (reorganize_taints L copy false [] (key_taint ∷ [])).1;
  }

  -- What is wanted of the taints of a node that is to be held.
  unfoldable pub held_taints : VerifiedNodes → Node → Option (List Taint)
  held_taints v copy =
      let new = (reorganize_taints L copy true v.taints_to_add v.taints_to_delete).1 in
      if is_empty (items copy.taints) && is_empty new then copy.taints else some new

  -- The body of the first loop of `doLabelAndTaints`.
  unfoldable pub release_node : Entries → Node → Exec Call (Unit {0})
  unfolding copy_node released_node patch_if_changed
  release_node labels node =
      copy_node node >>= λ copy. patch_if_changed node (released_node labels copy)

  -- The body of the second loop.
  unfoldable pub hold_node : VerifiedNodes → Node → Exec Call (Unit {0})
  unfolding copy_node with_labels held_taints patch_if_changed
  hold_node v node = copy_node node >>= λ copy. with_labels v.labels copy.labels >>= λ labels.
      patch_if_changed node
        (record { meta = record copy.meta { labels = labels }; taints = held_taints v copy })

  -- `doLabelAndTaints`
  unfoldable pub do_label_and_taints : List Node → VerifiedNodes → Exec Call (Unit {0})
  unfolding release_node hold_node for_each
  do_label_and_taints to_delete v =
      for_each to_delete (release_node v.labels) >> for_each v.nodes (hold_node v)

  -- `getNodesForLoadBalancer`
  unfoldable pub get_nodes_for_load_balancer : LoadBalancer → Exec Call (List Node)
  get_nodes_for_load_balancer lb h = lift (C.cached_nodes h (some (node_labels lb))) h

  -- `syncNodes`
  unfoldable pub sync_nodes : (String → Bool) → LoadBalancer → Exec Call (Unit {0})
  unfolding get_verified_nodes get_nodes_for_load_balancer nodes_diff do_label_and_taints
  sync_nodes is_ip lb = get_verified_nodes C L is_ip lb >>= λ desired.
      get_nodes_for_load_balancer lb >>= λ old.
      do_label_and_taints (nodes_diff old desired.nodes) desired
