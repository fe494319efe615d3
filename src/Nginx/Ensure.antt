-- ===== src/Nginx/Ensure.antt =====
-- ensureDeployment of proxy/proxies/nginx/nginx.go.
pub mod Again
use loadbalancer_controller.Common.{ℕ, Bool, true, false, not, ◌||◌, some}
use loadbalancer_controller.Common.{List, [], ◌∷◌, length, ◌==◌, string_eq, nat_eq}
use loadbalancer_controller.Common.{if◌then◌else◌}
use loadbalancer_controller.Common.Effects.{Exec, pure, lift, deref}
use loadbalancer_controller.Common.Effects.{◌>>=◌}
use loadbalancer_controller.Common.GoMap.{GoMap, entries, deep_equal}
use loadbalancer_controller.Common.Labels.{with_labels}
use loadbalancer_controller.Api.{Deployment, Container, Affinity, node_affinity_eq}
use loadbalancer_controller.LbUtil.Copies.{deployment_deep_copy}
use loadbalancer_controller.Cluster.{Library, Call}

-- The inner loop: the first container of the same name decides.
unfoldable pub is_same_in : Container → List Container → Bool
is_same_in c [] = false
is_same_in c (d ∷ ds) =
    let rest = is_same_in c ds in if c.name == d.name then c.image == d.image else rest

-- The outer loop: a container is missing, or has another image.
unfoldable pub any_changed : List Container → List Container → Bool
unfolding is_same_in
any_changed [] old = false
any_changed (c ∷ cs) old = not (is_same_in c old) || any_changed cs old

-- `containersChanged`
unfoldable pub containers_changed : List Container → List Container → Bool
unfolding any_changed
containers_changed desired old =
    if length old == length desired then any_changed desired old else true

-- The old deployment with the labels, replicas, containers and node affinity that are wanted.
unfoldable pub corrected : Deployment → Deployment → GoMap → Affinity → Affinity → Deployment
unfolding containers_changed
corrected desired copy labels copy_affinity desired_affinity = record {
  meta = record copy.meta { labels = labels };
  replicas = desired.replicas;
  template = record copy.template {
    spec = record copy.template.spec {
      containers =
          if containers_changed desired.template.spec.containers copy.template.spec.containers
          then desired.template.spec.containers
          else copy.template.spec.containers;
      affinity = some (record copy_affinity { node_affinity = desired_affinity.node_affinity });
    };
  };
}

-- `changed`, from the pointers that the comparison reads.
unfoldable pub is_changed :
    Deployment → Deployment → Deployment → GoMap → Affinity → Affinity → ℕ → ℕ → Bool
unfolding containers_changed
is_changed desired copy old labels old_affinity desired_affinity desired_replicas old_replicas =
    not (deep_equal labels old.labels)
    || not (desired_replicas == old_replicas)
    || not (desired_affinity.node_affinity == old_affinity.node_affinity)
    || containers_changed desired.template.spec.containers copy.template.spec.containers

-- `ensureDeployment`: the corrected copy, and whether it differs. A nil affinity, nil replicas and
-- a write to nil labels panic. The error is that of the deep copy.
unfoldable pub ensure_deployment : Library → Deployment → Deployment → Exec Call (Deployment × Bool)
unfolding corrected is_changed with_labels
ensure_deployment L desired old = lift (deployment_deep_copy L old) >>= λ copy.
    with_labels (entries desired.labels) copy.labels >>= λ labels.
    deref copy.template.spec.affinity >>= λ copy_affinity.
    deref desired.template.spec.affinity >>= λ desired_affinity.
    deref old.template.spec.affinity >>= λ old_affinity.
    deref desired.replicas >>= λ desired_replicas. deref old.replicas >>= λ old_replicas. pure (
      corrected desired copy labels copy_affinity desired_affinity,
      is_changed desired copy old labels old_affinity desired_affinity desired_replicas
          old_replicas,
    )
