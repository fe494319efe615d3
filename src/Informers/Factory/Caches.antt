-- ===== src/Informers/Factory/Caches.antt =====
-- A second Start, and WaitForCacheSync of pkg/informers/factory.go.
use mathlib.Core.Option
use loadbalancer_controller.Common.{Bool, true, none, List, [], ◌∷◌, ◌≡◌, refl, arith}
use loadbalancer_controller.Common.{if◌then◌else◌, Eq, Bool-cases, is_some, inl, inr}
use loadbalancer_controller.Common.Table.{find, find-put, IsListing}
use loadbalancer_controller.Informers.Factory.{
  Factory, is_started, start_each, start, started_of, synced_of, wait_for_cache_sync,
}
use loadbalancer_controller.Informers.Factory.Phases.{
  phase_of, started_in, view, start_each-cons, start_each-started, start_each-runs,
}

module _ {T I : Type 0} ⦃c : Eq T⦄ where
  start_each-settled :
      (order : List (T × I)) (started : List (T × Bool)) (runs : List (T × I))
      → ((u : T) → (is_some (find u order) ≡ true) → is_started u started ≡ true)
      → start_each order (started, runs) ≡ (started, runs)
  unfolding find start_each
  start_each-settled [] started runs h = refl
  start_each-settled ((t, i) ∷ order) started runs h =
      rw (start_each-cons t i order started runs, h t (ground (arith, c.equals_iff t t)))
        (start_each-settled order started runs (λ u e. h u (ground (arith, e))))

  started_of_lem :
      (order : List (T × I)) (started : List (T × Bool)) (u : T)
      → find u (started_of started order) ≡ (if is_started u started then find u order else none)
  unfolding started_of find
  started_of_lem [] started u = ground arith
  started_of_lem ((t, i) ∷ order) started u = elim (Bool-cases (is_started t started)) [
    | inl yes' ↦
        rw (yes', find-put (started_of started order) t u i, started_of_lem order started u)
          (ground (arith, yes', c.equals_iff t u))
    | inr no' ↦ rw (no', started_of_lem order started u) (ground (arith, no', c.equals_iff t u))
  ]

  synced_of_lem :
      (wait : I → Bool) (m : List (T × I)) (u : T)
      → find u (synced_of wait m) ≡ Option.map wait (find u m)
  unfolding synced_of find
  synced_of_lem wait [] u = refl
  synced_of_lem wait ((t, i) ∷ m) u =
      rw (find-put (synced_of wait m) t u (wait i), synced_of_lem wait m u) (ground arith)

module _ {T I K Q : Type 0} ⦃c : Eq T⦄ where
  -- A second `Start` runs nothing more and leaves the factory as the first has left it, whatever the
  -- orders in which the two visit the informers.
  pub start-start :
      (f : Factory T I K Q) (runs order order' : List (T × I))
      → IsListing order f.informers
      → IsListing order' f.informers
      → start order' (start order (f, runs)) ≡ start order (f, runs)
  unfolding start
  start-start f runs order order' l l' =
      rw
        (start_each-settled order' (start_each order (f.started_informers, runs)).0
          (start_each order (f.started_informers, runs)).1
          (λ u h.
            rw (start_each-started order f.started_informers runs u, l.1 u, ← l'.1 u, h) refl))
        refl

  -- `WaitForCacheSync` answers for exactly the types whose informer has been started, with what the
  -- wait for that informer's cache answers.
  pub wait_for_cache_sync_lem :
      (wait : I → Bool) (order : List (T × I)) (f : Factory T I K Q) (u : T)
      → IsListing order f.informers
      → find u (wait_for_cache_sync wait order f) ≡ Option.map wait (started_in (view f u))
  unfolding wait_for_cache_sync view started_in phase_of
  wait_for_cache_sync_lem wait order f u l =
      rw
        (
          synced_of_lem wait (started_of f.started_informers order) u,
          started_of_lem order f.started_informers u,
          l.1 u,
        )
        (ground arith)

  -- The first `Start` runs each informer once.
  pub start-new :
      (f : Factory T I K Q) (order : List (T × I))
      → IsListing order f.informers
      → f.started_informers ≡ []
      → IsListing (start order (f, [])).1 f.informers
  unfolding start is_started find
  start-new f order l e =
      rw e (
        let all = start_each-runs order [] [] (λ v h. refl) tt in
        (all.0, λ u. rw (all.1 u) (l.1 u)))
