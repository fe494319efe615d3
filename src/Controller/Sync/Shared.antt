-- ===== src/Controller/Sync/Shared.antt =====
-- The load balancer that sync of controller/lb_controller.go shares with the queues of
-- proxy/proxies/nginx/nginx.go and provider/providers/ipvsdr/ipvsdr.go.
--
-- The plugins' queues are handed a pointer to the copy, and `sync` then sets the nodes of the same
-- copy to none if the load balancer is gone.
use loadbalancer_controller.Common.{
  String, Bool, List, ◌≡◌, refl, Option-cases, inl, inr, string_eq,
}
use loadbalancer_controller.Common.Effects.{Reply-cases}
use loadbalancer_controller.Api.{LoadBalancer}
use loadbalancer_controller.Cluster.{Cluster, Library, Routines, Call, load_balancer}
use loadbalancer_controller.Validation.{validate_load_balancer}
use loadbalancer_controller.Listers.{get_lb_cached}
use loadbalancer_controller.Nginx.Selector.{Nginx}
use loadbalancer_controller.Nginx.Sync as NginxSync
use loadbalancer_controller.Ipvsdr.Selector.{Ipvsdr}
use loadbalancer_controller.Ipvsdr.Sync as IpvsdrSync
use loadbalancer_controller.Controller.Sync.{without_nodes}

module _ (C : Cluster) (L : Library) (R : Routines) (is_ip : String → Bool) (keys : List String)
    (lb : LoadBalancer) (h : List Call) where
  nginx-without_nodes :
      (f : Nginx)
      → NginxSync.sync_load_balancer C L R is_ip f keys (load_balancer (without_nodes lb)) h
        ≡ NginxSync.sync_load_balancer C L R is_ip f keys (load_balancer lb) h
  unfolding NginxSync.sync_load_balancer validate_load_balancer
  nginx-without_nodes f = elim (Option-cases (validate_load_balancer is_ip lb)) [
    | inr (e, bad) ↦ rw bad refl
    | inl good ↦ elim (Reply-cases (get_lb_cached C L h lb.namespace lb.name)) [
      | inl (fresh, found) ↦ rw (good, found) refl
      | inr (e, lost) ↦ rw (good, lost) refl
    ]
  ]

  ipvsdr-without_nodes :
      (f : Ipvsdr)
      → IpvsdrSync.sync_load_balancer C L R is_ip f keys (load_balancer (without_nodes lb)) h
        ≡ IpvsdrSync.sync_load_balancer C L R is_ip f keys (load_balancer lb) h
  unfolding IpvsdrSync.sync_load_balancer validate_load_balancer
  ipvsdr-without_nodes f = elim (Option-cases (validate_load_balancer is_ip lb)) [
    | inr (e, bad) ↦ rw bad refl
    | inl good ↦ elim (Reply-cases (get_lb_cached C L h lb.namespace lb.name)) [
      | inl (fresh, found) ↦ rw (good, found) refl
      | inr (e, lost) ↦ rw (good, lost) refl
    ]
  ]

  -- The syncs of both plugins make the same calls, with the same result, whether the load balancer
  -- in their queue still names its nodes or the controller has set them to none in the meantime.
  pub sync_load_balancer-without_nodes :
      (f : Nginx) (g : Ipvsdr)
      → (NginxSync.sync_load_balancer C L R is_ip f keys (load_balancer (without_nodes lb)) h
          ≡ NginxSync.sync_load_balancer C L R is_ip f keys (load_balancer lb) h)
        × (IpvsdrSync.sync_load_balancer C L R is_ip g keys (load_balancer (without_nodes lb)) h
            ≡ IpvsdrSync.sync_load_balancer C L R is_ip g keys (load_balancer lb) h)
  sync_load_balancer-without_nodes f g = (nginx-without_nodes f, ipvsdr-without_nodes g)
