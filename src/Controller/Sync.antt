-- ===== src/Controller/Sync.antt =====
-- syncLoadBalancer and sync of controller/lb_controller.go.
pub mod Composed
pub mod Shared
use loadbalancer_controller.Common.{String, Bool, true, false, Option, none, some, List, [], ◌==◌}
use loadbalancer_controller.Common.{string_eq, if◌then◌else◌}
use loadbalancer_controller.Common.Effects.{Error, message, is_not_found, Reply, reply, failed}
use loadbalancer_controller.Common.Effects.{Exec, pure, fail, lift, deref, ◌>>=◌, ◌>>◌}
use loadbalancer_controller.Controller.Clone.{clone}
use loadbalancer_controller.Api.{LoadBalancer}
use loadbalancer_controller.Cluster.{Cluster, Library, Call, Obj, load_balancer}
use loadbalancer_controller.Validation.{validate_load_balancer}
use loadbalancer_controller.Listers.{get_lb_cached}
use loadbalancer_controller.Plugins.{Plugin, on_sync}
use loadbalancer_controller.Plugins.Providers
use loadbalancer_controller.Controller.Nodes.{sync_nodes}

-- A load balancer that is gone wants no nodes.
abbrev pub without_nodes : LoadBalancer → LoadBalancer
without_nodes lb = record lb {
  spec = record (lb.spec) { nodes = record { replicas = some 0; names = some []; effect = none } };
}

module _ (C : Cluster) (L : Library) (is_ip : String → Bool) (proxies providers : List Plugin) where
  -- `sync`. The plugins share the copy, whose nodes are set after they have it.
  unfoldable pub sync : LoadBalancer → Bool → Exec Call (Unit {0})
  unfolding on_sync sync_nodes
  sync lb deleted = lift (clone L lb) >>= deref >>= λ copy.
      on_sync proxies copy
      >> Providers.on_sync providers copy
      >> sync_nodes C L is_ip (if deleted then without_nodes copy else copy)

  sync_fetched : LoadBalancer → Reply LoadBalancer → Exec Call (Unit {0})
  unfolding sync
  sync_fetched lb (failed e) = if is_not_found e then sync lb true else fail e
  sync_fetched lb (reply fresh) = if lb.uid == fresh.uid then sync fresh false else pure tt

  sync_valid : LoadBalancer → Option Error → Exec Call (Unit {0})
  unfolding sync_fetched
  sync_valid lb (some e) h = fail e h
  sync_valid lb none h = sync_fetched lb (get_lb_cached C L h lb.namespace lb.name) h

  -- `syncLoadBalancer`
  unfoldable pub sync_load_balancer : Obj → Exec Call (Unit {0})
  unfolding sync_valid
  sync_load_balancer (load_balancer lb) = sync_valid lb (validate_load_balancer is_ip lb)
  sync_load_balancer o = fail (message "expect loadbalancer")
