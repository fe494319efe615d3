-- ===== src/Controller/Start.antt =====
-- Run and ensureResource of controller/lb_controller.go.
pub mod Synced
pub mod Working
use loadbalancer_controller.Common.{
  ℕ, String, ◌<>◌, Bool, true, false, List, [], ◌∷◌, ◌++◌, map, string_eq, if◌then◌else◌,
}
use loadbalancer_controller.Common.Effects.{
  is_already_exists, Reply, reply, failed, ok, Exec, pure, fail, post, call, attempt, ◌>>=◌, ◌>>◌,
}
use loadbalancer_controller.Api.{alpha_group_name}
use loadbalancer_controller.Cluster.{Cluster, Call, lb_queue, create_resource, run_informer, await}
use loadbalancer_controller.Helper.{
  Helper, new_helper_for_key_func, passthrough_key_func, shut_down_helper,
}
use loadbalancer_controller.Helper
use loadbalancer_controller.Controller.Events.{lb_helper}
use loadbalancer_controller.Plugins
use loadbalancer_controller.Plugins.Providers
use loadbalancer_controller.Plugins.{Plugin}
use loadbalancer_controller.Informers.Factory.{Factory, start, wait_for_cache_sync}

module _ (C : Cluster) where
  ensured : Reply (Unit {0}) → Exec Call (Unit {0})
  ensured (reply u) = pure tt
  ensured (failed e) = if is_already_exists e then pure tt else fail e

  -- `ensureResource`; of the third party resource only the name is kept.
  unfoldable pub ensure_resource : Exec Call (Unit {0})
  unfolding ensured
  ensure_resource =
      let create = create_resource ("load-balancer" <> "." <> alpha_group_name) in
      attempt (call create (λ h. C.accepted h create)) >>= ensured

-- The loop of `Run` over the answers of `WaitForCacheSync`.
unfoldable pub all_synced : List (String × Bool) → Bool
all_synced [] = true
all_synced ((t, synced) ∷ m) = let rest = all_synced m in if synced then rest else false

-- The workers and plugins of `Run`, and what is deferred until the end; `stops` tells whether the stop
-- ever comes.
unfoldable pub work : Bool → ℕ → List Plugin → List Plugin → Exec Call (Unit {0})
unfolding Helper.run Plugins.run
work stops workers proxies providers =
    Helper.run workers lb_helper
    >> Plugins.run proxies
    >> Providers.run providers
    >> await stops
    >> shut_down_helper lb_helper

-- What follows the wait for the caches.
unfoldable pub work_if : Bool → Bool → ℕ → List Plugin → List Plugin → Exec Call (Unit {0})
unfolding work
work_if stops false workers proxies providers = pure tt
work_if stops true workers proxies providers = work stops workers proxies providers

module _ {I K Q : Type 0} (C : Cluster) (wait : I → Bool) (stops : Bool) where
  -- What follows `ensureResource`: the informers that have not been started are, and their caches
  -- are waited for; `wait` is what `cache.WaitForCacheSync` answers. The orders are those of the two
  -- `range`s over the informers.
  unfoldable pub run_ensured :
      (order order' : List (String × I))
      → ℕ
      → List Plugin
      → List Plugin
      → Factory String I K Q
      → Reply (Unit {0})
      → Exec Call (Unit {0})
  unfolding start wait_for_cache_sync all_synced work_if
  run_ensured order order' workers proxies providers f (failed e) h = (ok tt, h)
  run_ensured order order' workers proxies providers f (reply u) h =
      let (f', runs) = start order (f, []) in
      work_if stops (all_synced (wait_for_cache_sync wait order' f')) workers proxies providers
        (map (λ r. run_informer r.0) runs ++ h)

  -- `Run`
  unfoldable pub run :
      (order order' : List (String × I))
      → ℕ
      → List Plugin
      → List Plugin
      → Factory String I K Q
      → Exec Call (Unit {0})
  unfolding ensure_resource run_ensured
  run order order' workers proxies providers f =
      attempt (ensure_resource C) >>= run_ensured order order' workers proxies providers f
