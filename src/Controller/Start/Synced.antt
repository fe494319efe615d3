-- ===== src/Controller/Start/Synced.antt =====
-- When Run of controller/lb_controller.go starts its work.
use loadbalancer_controller.Common.{
  ℕ, String, Bool, true, false, some, List, [], ◌∷◌, ◌++◌, map, ◌≡◌, refl, arith, string_eq,
  keep_if, Bool-cases, inl, inr, ◌⊎◌,
}
use loadbalancer_controller.Common.Effects.{
  is_already_exists, Reply, Reply-cases, reply, failed, ok,
}
use loadbalancer_controller.Common.Table.{find, IsListing}
use loadbalancer_controller.Cluster.{
  Cluster, Call, create_resource, run_informer, run_plugin, start_worker,
}
use loadbalancer_controller.Plugins.{Plugin}
use loadbalancer_controller.Informers.Factory.{Factory, is_started, start, wait_for_cache_sync}
use loadbalancer_controller.Informers.Factory.Phases.{view, phase_of, begun, started_in, view-start}
use loadbalancer_controller.Informers.Factory.Caches.{wait_for_cache_sync_lem}
use loadbalancer_controller.Controller.Start.{
  ensure_resource, all_synced, work_if, run_ensured, run,
}

-- A call that starts a worker or a plugin.
abbrev pub is_work : Call → Bool
is_work (start_worker q) = true
is_work (run_plugin name) = true
is_work c = false

-- One cache that is not synced is enough.
all_synced-false :
    (m : List (String × Bool)) (t : String) → (find t m ≡ some false) → all_synced m ≡ false
unfolding find all_synced
all_synced-false [] t h = cc
all_synced-false ((u, synced) ∷ m) t h = ground (arith, all_synced-false m t, h)

informer_runs-are_no_work :
    {I : Type 0}
    → (runs : List (String × I)) (h : List Call)
    → keep_if is_work (map (λ r. run_informer r.0) runs ++ h) ≡ keep_if is_work h
informer_runs-are_no_work [] h = refl
informer_runs-are_no_work (r ∷ runs) h = informer_runs-are_no_work runs h

-- The resource has been created, or was there already.
abbrev pub is_ensured : Reply (Unit {0}) → Bool
is_ensured (reply u) = true
is_ensured (failed e) = is_already_exists e

-- The call that creates it.
abbrev pub create_load_balancers : Call
create_load_balancers = create_resource "load-balancer.net.alpha.caicloud.io"

module _ {I K Q : Type 0} (C : Cluster) (wait : I → Bool) (stops : Bool) where
  wait_for_cache_sync-start :
      (f : Factory String I K Q) (order order' : List (String × I)) (t : String) (i : I)
      → IsListing order f.informers
      → IsListing order' f.informers
      → (find t f.informers ≡ some i)
      → find t (wait_for_cache_sync wait order' (start order (f, [])).0) ≡ some (wait i)
  unfolding view begun started_in phase_of start
  wait_for_cache_sync-start f order order' t i l l' e =
      rw
        (
          wait_for_cache_sync_lem wait order' (start order (f, [])).0 t l',
          view-start f [] order t l,
          e,
        )
        (elim (Bool-cases (is_started t f.started_informers)) [
          | inl yet ↦ rw yet refl
          | inr new ↦ rw new refl
        ])

  pub run-ensured :
      (f : Factory String I K Q) (order order' : List (String × I)) (workers : ℕ)
      (proxies providers : List Plugin) (h : List Call)
      → is_ensured (C.accepted h create_load_balancers) ≡ true
      → run C wait stops order order' workers proxies providers f h
        ≡ run_ensured C wait stops order order' workers proxies providers f
            (reply tt)
            (create_load_balancers ∷ h)
  unfolding run ensure_resource
  run-ensured f order order' workers proxies providers h e =
      elim (Reply-cases (C.accepted h create_load_balancers)) [
        | inl (u, a) ↦ rw a refl
        | inr (x, a) ↦ rw (a, rw a at e) refl
      ]

  pub run-refused :
      (f : Factory String I K Q) (order order' : List (String × I)) (workers : ℕ)
      (proxies providers : List Plugin) (h : List Call)
      → is_ensured (C.accepted h create_load_balancers) ≡ false
      → run C wait stops order order' workers proxies providers f h
        ≡ (ok tt, create_load_balancers ∷ h)
  unfolding run ensure_resource run_ensured
  run-refused f order order' workers proxies providers h e =
      elim (Reply-cases (C.accepted h create_load_balancers)) [
        | inl (u, a) ↦ cc a
        | inr (x, a) ↦ rw (a, rw a at e) refl
      ]

  cache_unsynced :
      (f : Factory String I K Q) (order order' : List (String × I)) (t : String) (i : I)
      (workers : ℕ) (proxies providers : List Plugin) (h : List Call)
      → IsListing order f.informers
      → IsListing order' f.informers
      → (find t f.informers ≡ some i)
      → wait i ≡ false
      → keep_if is_work
          (run_ensured C wait stops order order' workers proxies providers f (reply tt) h).1
        ≡ keep_if is_work h
  unfolding run_ensured work_if
  cache_unsynced f order order' t i workers proxies providers h l l' e w =
      let waited : find t (wait_for_cache_sync wait order' (start order (f, [])).0) ≡ some false =
        rw (← w) (wait_for_cache_sync-start f order order' t i l l' e) in
      rw (all_synced-false _ t waited) (informer_runs-are_no_work (start order (f, [])).1 h)

  -- If the API server refuses the resource with an error other than that it exists, or if there is an
  -- informer of the factory whose cache does not sync, `Run` starts neither a worker nor a plugin,
  -- whatever the orders in which it visits the informers.
  pub run-unsynced :
      (f : Factory String I K Q) (order order' : List (String × I)) (workers : ℕ)
      (proxies providers : List Plugin) (h : List Call)
      → IsListing order f.informers
      → IsListing order' f.informers
      → (is_ensured (C.accepted h create_load_balancers) ≡ false)
        ⊎ ((t : String) × (i : I) × (find t f.informers ≡ some i) × (wait i ≡ false))
      → keep_if is_work (run C wait stops order order' workers proxies providers f h).1
        ≡ keep_if is_work h
  run-unsynced f order order' workers proxies providers h l l' (inl refused) =
      rw (run-refused f order order' workers proxies providers h refused) refl
  run-unsynced f order order' workers proxies providers h l l' (inr (t, i, e, w)) =
      elim (Bool-cases (is_ensured (C.accepted h create_load_balancers))) [
        | inl yet ↦ rw (run-ensured f order order' workers proxies providers h yet) (
            cache_unsynced f order order' t i workers proxies providers (create_load_balancers ∷ h)
              l l' e w)
        | inr refused ↦ rw (run-refused f order order' workers proxies providers h refused) refl
      ]
