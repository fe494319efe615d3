-- ===== src/Controller/Sync/Composed.antt =====
-- syncLoadBalancer of controller/lb_controller.go with the plugins that proxy/proxies/nginx/nginx.go
-- and provider/providers/ipvsdr/ipvsdr.go register.
use loadbalancer_controller.Common.{
  String, Bool, true, false, not, ◌||◌, ◌==◌, string_eq, none, List, [], ◌∷◌, ◌≡◌, refl, is_some,
  if◌then◌else◌, Bool-cases, inl, inr,
}
use loadbalancer_controller.Common.Effects.{
  is_not_found, Reply, reply, failed, Result, ok, err, for_each,
}
use loadbalancer_controller.Api.{LoadBalancer, load_balancer_type_external}
use loadbalancer_controller.Cluster.{
  Cluster, Library, HasDeepCopy, Call, Queue, nginx_queue, ipvsdr_queue, add, load_balancer,
}
use loadbalancer_controller.Validation.{validate_load_balancer}
use loadbalancer_controller.Listers.{get_lb_cached}
use loadbalancer_controller.LbUtil.Copies.{as_load_balancer-deep_copy}
use loadbalancer_controller.Helper.{enqueue, new_helper_for_key_func, passthrough_key_func}
use loadbalancer_controller.Plugins
use loadbalancer_controller.Plugins.{Plugin}
use loadbalancer_controller.Nginx
use loadbalancer_controller.Ipvsdr
use loadbalancer_controller.Nginx.Plugin as NginxPlugin
use loadbalancer_controller.Ipvsdr.Plugin as IpvsdrPlugin
use loadbalancer_controller.Controller.Nodes.{sync_nodes}
use loadbalancer_controller.Controller.Sync.{without_nodes, sync, sync_fetched, sync_load_balancer}

-- What an enqueueing adds to the calls: nothing, once the queue is shutting down.
abbrev pub enqueued : Cluster → Queue → LoadBalancer → List Call → List Call
enqueued C queue lb h = if C.shutting_down h queue then h else add queue (load_balancer lb) ∷ h

-- The proxy's queue has it if its proxy is nginx.
abbrev pub proxied : Cluster → LoadBalancer → List Call → List Call
proxied C lb h = if lb.spec.proxy.kind == "nginx" then enqueued C nginx_queue lb h else h

-- The provider's queue has it if it is external, and also if it names no ipvsdr provider.
abbrev pub provided : Cluster → LoadBalancer → List Call → List Call
provided C lb h =
    if lb.spec.kind == load_balancer_type_external || not (is_some lb.spec.providers.ipvsdr)
    then enqueued C ipvsdr_queue lb h
    else h

-- The plugins that are registered.
abbrev nginx : Cluster → Plugin
nginx C = record { name = "nginx"; on_sync = Nginx.Selector.on_sync C }

abbrev ipvsdr : Cluster → Plugin
ipvsdr C = record { name = "ipvsdr"; on_sync = Ipvsdr.Selector.on_sync C }

module _ (C : Cluster) where
  -- A loop over one plugin that enqueues.
  enqueued_lem :
      (helper : Queue) (lb : LoadBalancer) (h : List Call)
      → (for_each
          (tt ∷ [])
          (λ (u : Unit {0}).
            enqueue C (new_helper_for_key_func helper passthrough_key_func) (load_balancer lb))
          h)
        ≡ (ok tt, enqueued C helper lb h)
  unfolding for_each enqueue
  enqueued_lem q lb h = elim (Bool-cases (C.shutting_down h q)) [
    | inl closed ↦ rw closed refl
    | inr open' ↦ rw open' refl
  ]

  nginx_lem :
      (proxies : List Plugin) (lb : LoadBalancer) (h : List Call)
      → NginxPlugin.register C [] ≡ ok proxies
      → Plugins.on_sync proxies lb h ≡ (ok tt, proxied C lb h)
  unfolding for_each Plugins.on_sync NginxPlugin.register enqueue
  nginx_lem proxies lb h p =
      let only : nginx C ∷ [] ≡ proxies = cc in
      rw (← only) (elim (Bool-cases (lb.spec.proxy.kind == "nginx")) [
        | inl mine ↦ rw mine (enqueued_lem nginx_queue lb h)
        | inr other ↦ rw other refl
      ])

  ipvsdr_lem :
      (providers : List Plugin) (lb : LoadBalancer) (h : List Call)
      → IpvsdrPlugin.register C [] ≡ ok providers
      → Plugins.on_sync providers lb h ≡ (ok tt, provided C lb h)
  unfolding for_each Plugins.on_sync IpvsdrPlugin.register enqueue
  ipvsdr_lem providers lb h p =
      let only : ipvsdr C ∷ [] ≡ providers = cc in
      rw (← only) (elim (Bool-cases (lb.spec.kind == load_balancer_type_external)) [
        | inl external ↦ rw external (enqueued_lem ipvsdr_queue lb h)
        | inr internal ↦ elim (Bool-cases (is_some lb.spec.providers.ipvsdr)) [
          | inl named ↦ rw (internal, named) refl
          | inr absent ↦ rw (internal, absent) (enqueued_lem ipvsdr_queue lb h)
        ]
      ])

module _ (C : Cluster) (L : Library) (D : HasDeepCopy L) (is_ip : String → Bool) where
  -- What a sync comes to, from what the lister answers.
  abbrev pub outcome : LoadBalancer → Reply LoadBalancer → List Call → Result (Unit {0}) × List Call
  outcome lb (failed e) h =
      if is_not_found e
      then sync_nodes C L is_ip (without_nodes lb) (provided C lb (proxied C lb h))
      else (err e, h)
  outcome lb (reply fresh) h =
      if lb.uid == fresh.uid
      then sync_nodes C L is_ip fresh (provided C fresh (proxied C fresh h))
      else (ok tt, h)

  module _ (proxies providers : List Plugin) (p : NginxPlugin.register C [] ≡ ok proxies)
      (q : IpvsdrPlugin.register C [] ≡ ok providers) where
    sync_lem :
        (lb : LoadBalancer) (deleted : Bool) (h : List Call)
        → sync C L is_ip proxies providers lb deleted h
          ≡ sync_nodes C L is_ip
              (if deleted then without_nodes lb else lb)
              (provided C lb (proxied C lb h))
    unfolding sync
    sync_lem lb deleted h =
        rw
          (
            as_load_balancer-deep_copy L D lb,
            nginx_lem C proxies lb h p,
            ipvsdr_lem C providers lb (proxied C lb h) q,
          )
          refl

    fetched_lem :
        (lb : LoadBalancer) (h : List Call) (r : Reply LoadBalancer)
        → sync_fetched C L is_ip proxies providers lb r h ≡ outcome lb r h
    unfolding sync_fetched
    fetched_lem lb h (failed e) = elim (Bool-cases (is_not_found e)) [
      | inl gone ↦ rw gone (sync_lem lb true h)
      | inr worse ↦ rw worse refl
    ]
    fetched_lem lb h (reply fresh) = elim (Bool-cases (lb.uid == fresh.uid)) [
      | inl same ↦ rw same (sync_lem fresh false h)
      | inr other ↦ rw other refl
    ]

    -- A sync of a valid load balancer with the plugins that the packages register first puts it on
    -- the queue of the nginx proxy, if its proxy is nginx, then on that of the ipvsdr provider, if
    -- it is external or names no ipvsdr provider, each unless that queue is shutting down, and then
    -- syncs the nodes. All three are given the load balancer that the lister has, or, if it has
    -- none, the one that is gone, for which the nodes are synced as if it named none. If the lister
    -- has one with another uid, nothing is done; if it fails otherwise, its error is returned.
    pub sync_load_balancer-plugins :
        (lb : LoadBalancer) (h : List Call)
        → validate_load_balancer is_ip lb ≡ none
        → sync_load_balancer C L is_ip proxies providers (load_balancer lb) h
          ≡ outcome lb (get_lb_cached C L h lb.namespace lb.name) h
    unfolding sync_load_balancer
    sync_load_balancer-plugins lb h valid =
        rw valid (fetched_lem lb h (get_lb_cached C L h lb.namespace lb.name))
