-- ===== src/Ipvsdr/Ensure.antt =====
-- ensureDeployment of provider/providers/ipvsdr/ipvsdr.go.
use loadbalancer_controller.Common.{ℕ, String, Bool, not, ◌||◌, some}
use loadbalancer_controller.Common.{List, [], ◌∷◌, ◌==◌, string_eq, nat_eq}
use loadbalancer_controller.Common.Effects.{Exec, pure, crash, lift, deref}
use loadbalancer_controller.Common.Effects.{◌>>=◌}
use loadbalancer_controller.Common.GoMap.{GoMap, entries, deep_equal}
use loadbalancer_controller.Common.Labels.{with_labels}
use loadbalancer_controller.Api.{Deployment, Container, Affinity, node_affinity_eq}
use loadbalancer_controller.LbUtil.Copies.{deployment_deep_copy}
use loadbalancer_controller.Cluster.{Library, Call}

-- `Containers[0].Image`; an index out of range panics.
unfoldable pub first_image : List Container → Exec Call String
first_image [] = crash
first_image (c ∷ cs) = pure c.image

-- `Containers[0].Image = image`
unfoldable pub set_first_image : String → List Container → List Container
set_first_image image [] = []
set_first_image image (c ∷ cs) = record c { image = image } ∷ cs

-- The old deployment with the labels, replicas, image and node affinity that are wanted.
unfoldable pub corrected :
    Deployment → Deployment → GoMap → String → Affinity → Affinity → Deployment
unfolding set_first_image
corrected desired copy labels image copy_affinity desired_affinity = record {
  meta = record copy.meta { labels = labels };
  replicas = desired.replicas;
  template = record copy.template {
    spec = record copy.template.spec {
      containers = set_first_image image copy.template.spec.containers;
      affinity = some (record copy_affinity { node_affinity = desired_affinity.node_affinity });
    };
  };
}

-- `changed`, from the values that the comparison reads.
unfoldable pub is_changed :
    Deployment → GoMap → Affinity → Affinity → String → String → ℕ → ℕ → Bool
is_changed old labels old_affinity desired_affinity image old_image desired_replicas old_replicas =
    not (deep_equal labels old.labels)
    || not (desired_replicas == old_replicas)
    || not (desired_affinity.node_affinity == old_affinity.node_affinity)
    || not (image == old_image)

-- `ensureDeployment`: the corrected copy, and whether it differs. A missing container, a nil
-- affinity, nil replicas and a write to nil labels panic. The error is that of the deep copy.
unfoldable pub ensure_deployment : Library → Deployment → Deployment → Exec Call (Deployment × Bool)
unfolding corrected is_changed first_image with_labels
ensure_deployment L desired old = lift (deployment_deep_copy L old) >>= λ copy.
    with_labels (entries desired.labels) copy.labels >>= λ labels.
    first_image desired.template.spec.containers >>= λ image.
    first_image copy.template.spec.containers >>= λ _.
    deref copy.template.spec.affinity >>= λ copy_affinity.
    deref desired.template.spec.affinity >>= λ desired_affinity.
    deref old.template.spec.affinity >>= λ old_affinity.
    first_image old.template.spec.containers >>= λ old_image.
    deref desired.replicas >>= λ desired_replicas. deref old.replicas >>= λ old_replicas. pure (
      corrected desired copy labels image copy_affinity desired_affinity,
      is_changed old labels old_affinity desired_affinity image old_image desired_replicas
          old_replicas,
    )
