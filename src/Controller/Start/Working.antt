-- ===== src/Controller/Start/Working.antt =====
-- What Run of controller/lb_controller.go does once all caches are synced.
use loadbalancer_controller.Common.{
  ℕ, zero, suc, String, Bool, true, false, List, [], ◌∷◌, ◌++◌, map, ◌≡◌, refl, arith, All,
  string_eq, Bool-cases, inl, inr, if◌then◌else◌,
}
use loadbalancer_controller.Common.Effects.{Result, ok, blocked, for_each, ◌>>◌}
use loadbalancer_controller.Common.Table.{put}
use loadbalancer_controller.Cluster.{
  Cluster, Call, Queue, lb_queue, run_informer, run_plugin, start_worker, await, await_stop,
  shut_down,
}
use loadbalancer_controller.Helper.{Helper, shut_down_helper}
use loadbalancer_controller.Helper
use loadbalancer_controller.Plugins
use loadbalancer_controller.Plugins.{Plugin}
use loadbalancer_controller.Informers.Factory.{
  Factory, is_started, start, started_of, synced_of, wait_for_cache_sync,
}
use loadbalancer_controller.Controller.Start.{all_synced, work, work_if, run_ensured, run}
use loadbalancer_controller.Controller.Events.{lb_helper}
use loadbalancer_controller.Controller.Start.Synced.{is_ensured, create_load_balancers, run-ensured}

-- The calls after some that have been made, in their order.
abbrev pub calls_after : List Call → List Call → List Call
calls_after [] h = h
calls_after (c ∷ cs) h = calls_after cs (c ∷ h)

abbrev pub worker_calls : ℕ → Queue → List Call
worker_calls zero q = []
worker_calls (suc n) q = start_worker q ∷ worker_calls n q

abbrev pub plugin_calls : List Plugin → List Call
plugin_calls = map (λ p. run_plugin p.name)

-- All the work that `Run` starts, the wait for the stop, and the shutdown if that comes.
abbrev pub work_calls : Bool → ℕ → List Plugin → List Plugin → List Call
work_calls stops workers proxies providers =
    worker_calls workers lb_queue
    ++ (plugin_calls proxies
        ++ (plugin_calls providers
            ++ (await_stop ∷ (if stops then shut_down lb_queue ∷ [] else []))))

-- How `Run` ends.
abbrev pub ended : Bool → Result (Unit {0})
ended stops = if stops then ok tt else blocked

calls_after-append :
    (cs ds h : List Call) → calls_after (cs ++ ds) h ≡ calls_after ds (calls_after cs h)
calls_after-append [] ds h = refl
calls_after-append (c ∷ cs) ds h = calls_after-append cs ds (c ∷ h)

helper_run_lem :
    (n : ℕ) (helper : Helper) (h : List Call)
    → Helper.run n helper h ≡ (ok tt, calls_after (worker_calls n helper.queue) h)
unfolding Helper.run
helper_run_lem zero helper h = refl
helper_run_lem (suc n) helper h = helper_run_lem n helper (start_worker helper.queue ∷ h)

plugins_run_lem :
    (ps : List Plugin) (h : List Call) → Plugins.run ps h ≡ (ok tt, calls_after (plugin_calls ps) h)
unfolding Plugins.run for_each
plugins_run_lem [] h = refl
plugins_run_lem (p ∷ ps) h = plugins_run_lem ps (run_plugin p.name ∷ h)

wait_lem :
    (stops : Bool) (h : List Call)
    → (await stops >> shut_down_helper lb_helper) h
      ≡ (ended stops, calls_after (await_stop ∷ (if stops then shut_down lb_queue ∷ [] else [])) h)
wait_lem true h = refl
wait_lem false h = refl

work_lem :
    (stops : Bool) (workers : ℕ) (proxies providers : List Plugin) (h : List Call)
    → work stops workers proxies providers h
      ≡ (ended stops, calls_after (work_calls stops workers proxies providers) h)
unfolding work
work_lem stops workers proxies providers h =
    rw
      (
        helper_run_lem workers lb_helper h,
        plugins_run_lem proxies,
        plugins_run_lem providers,
        calls_after-append (worker_calls workers lb_queue),
        calls_after-append (plugin_calls proxies),
        calls_after-append (plugin_calls providers),
      )
      (wait_lem stops _)

-- All that have been waited for are synced.
put-all_synced :
    (m : List (String × Bool)) (t : String) → all_synced m ≡ true → all_synced (put t true m) ≡ true
unfolding put all_synced
put-all_synced [] t h = refl
put-all_synced ((u, synced) ∷ m) t h = ground (arith, put-all_synced m t, h)

module _ {I : Type 0} (wait : I → Bool) where
  AreSynced : List (String × I) → Type 0
  AreSynced = All (λ r. wait r.1 ≡ true)

  put-AreSynced :
      (m : List (String × I)) (t : String) (i : I)
      → wait i ≡ true
      → AreSynced m
      → AreSynced (put t i m)
  unfolding put AreSynced
  put-AreSynced [] t i w h = (w, tt)
  put-AreSynced ((u, j) ∷ m) t i w h = ground (arith, put-AreSynced m t i w h.1, h, w)

  started_of-AreSynced :
      (started : List (String × Bool)) (order : List (String × I))
      → AreSynced order
      → AreSynced (started_of started order)
  unfolding started_of AreSynced
  started_of-AreSynced started [] h = tt
  started_of-AreSynced started ((t, i) ∷ order) h = elim (Bool-cases (is_started t started)) [
    | inl yet ↦
        rw yet (
          put-AreSynced (started_of started order) t i h.0 (started_of-AreSynced started order h.1))
    | inr new ↦ rw new (started_of-AreSynced started order h.1)
  ]

  synced_of-all_synced :
      (m : List (String × I)) → AreSynced m → all_synced (synced_of wait m) ≡ true
  unfolding synced_of all_synced AreSynced
  synced_of-all_synced [] h = refl
  synced_of-all_synced ((t, i) ∷ m) h =
      rw h.0 (put-all_synced (synced_of wait m) t (synced_of-all_synced m h.1))

module _ {I K Q : Type 0} (C : Cluster) (wait : I → Bool) (stops : Bool) where
  -- If the API server has or creates the resource and the caches of all informers sync, then `Run`
  -- starts, after it has started the informers that did not run, all its workers, the proxies and
  -- the providers, in this order, and then waits for the stop, and shuts the queue down if that comes.
  pub run-synced :
      (f : Factory String I K Q) (order order' : List (String × I)) (workers : ℕ)
      (proxies providers : List Plugin) (h : List Call)
      → is_ensured (C.accepted h create_load_balancers) ≡ true
      → All (λ r. wait r.1 ≡ true) order'
      → run C wait stops order order' workers proxies providers f h ≡ (
        ended stops,
        calls_after
            (work_calls stops workers proxies providers)
            (map (λ r. run_informer r.0) (start order (f, [])).1 ++ create_load_balancers ∷ h),
      )
  unfolding run_ensured work_if wait_for_cache_sync AreSynced
  run-synced f order order' workers proxies providers h e w =
      rw
        (
          run-ensured C wait stops f order order' workers proxies providers h e,
          synced_of-all_synced wait _
              (started_of-AreSynced wait (start order (f, [])).0.started_informers order' w),
        )
        (work_lem stops workers proxies providers _)
