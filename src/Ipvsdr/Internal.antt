-- ===== src/Ipvsdr/Internal.antt =====
-- A load balancer that has no ipvsdr provider, and provider/providers/ipvsdr/ipvsdr.go.
use loadbalancer_controller.Common.{String, ◌≡◌, Bool, false, none, List, [], ◌∷◌, arith}
use loadbalancer_controller.Common.Effects.{ok, panic, reply}
use loadbalancer_controller.Api.{LoadBalancer}
use loadbalancer_controller.Cluster.{
  Cluster, Library, Routines, Call, load_balancer, create_deployment, add, ipvsdr_queue,
}
use loadbalancer_controller.Ipvsdr.Selector.{Ipvsdr, on_sync}
use loadbalancer_controller.Ipvsdr.Generate.{generate_deployment}
use loadbalancer_controller.Ipvsdr.Sync.{sync}
use loadbalancer_controller.Helper.{enqueue}

module _ (C : Cluster) (lb : LoadBalancer) (absent : lb.spec.providers.ipvsdr ≡ none) where
  -- A load balancer with no ipvsdr provider, of whatever type, is put on the provider's queue as
  -- long as the queue is open.
  pub on_sync_absent :
      (h : List Call)
      → C.shutting_down h ipvsdr_queue ≡ false
      → on_sync C lb h ≡ (ok tt, add ipvsdr_queue (load_balancer lb) ∷ h)
  unfolding on_sync enqueue
  on_sync_absent h open_queue = rw absent (ground arith)

  module _ (L : Library) (R : Routines) (is_ip : String → Bool) (f : Ipvsdr)
      (keys : List String) where
    -- The sync of a load balancer with no ipvsdr provider, where it has no deployment yet and the
    -- API server accepts the new one, creates a deployment for it and then panics.
    pub sync_absent :
        (h : List Call)
        → let create = create_deployment lb.namespace (generate_deployment f (C.int63 h) keys lb) in
          C.accepted h create ≡ reply tt → sync C L R is_ip f keys lb [] h ≡ (panic, create ∷ h)
    unfolding sync generate_deployment
    sync_absent h accepted = rw (accepted, absent)
