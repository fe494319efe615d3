-- ===== src/Informers/Factory.antt =====
-- pkg/informers/factory.go
pub mod Phases
pub mod Life
pub mod Refinement
pub mod Caches
use loadbalancer_controller.Common.{ℕ, Bool, true, false, Option, none, some, List, [], ◌∷◌}
use loadbalancer_controller.Common.{if◌then◌else◌, Eq}
use loadbalancer_controller.Common.Table.{find, put}

-- `sharedInformerFactory`, for the types T of objects, the informers I, and the two clients. The
-- lock makes each method one step.
pub record Factory (T I K Q : Type 0) : Type 0 where
  pub client : K
  pub tpr_client : Q
  pub default_resync : ℕ
  pub informers : List (T × I)
  pub started_informers : List (T × Bool)

module _ {T I K Q : Type 0} where
  -- `NewSharedInformerFactory`
  abbrev pub new_shared_informer_factory : K → Q → ℕ → Factory T I K Q
  new_shared_informer_factory client tpr_client default_resync = record {
    client = client;
    tpr_client = tpr_client;
    default_resync = default_resync;
    informers = [];
    started_informers = [];
  }

-- A key that a map of Booleans does not have reads as false.
unfoldable pub or_false : Option Bool → Bool
or_false none = false
or_false (some b) = b

module _ {T : Type 0} ⦃c : Eq T⦄ where
  -- `f.startedInformers[informerType]`
  unfoldable pub is_started : T → List (T × Bool) → Bool
  unfolding or_false
  is_started t started = or_false (find t started)

module _ {T I : Type 0} ⦃c : Eq T⦄ where
  -- The body of the loop of `Start`, over `startedInformers` and the informers that run, the latest
  -- first.
  unfoldable pub start_one : T × I → List (T × Bool) × List (T × I) → List (T × Bool) × List (T × I)
  unfolding is_started
  start_one (t, i) (started, runs) =
      if is_started t started then (started, runs) else (put t true started, (t, i) ∷ runs)

  -- The loop, in the order of its `range`.
  unfoldable pub start_each :
      List (T × I) → List (T × Bool) × List (T × I) → List (T × Bool) × List (T × I)
  unfolding start_one
  start_each [] w = w
  start_each (e ∷ es) w = start_each es (start_one e w)

  -- The first loop of `WaitForCacheSync`, in the order of its `range`.
  unfoldable pub started_of : List (T × Bool) → List (T × I) → List (T × I)
  unfolding is_started
  started_of started [] = []
  started_of started ((t, i) ∷ order) =
      let rest = started_of started order in if is_started t started then put t i rest else rest

  -- The second loop, from what `cache.WaitForCacheSync` answers for each informer.
  unfoldable pub synced_of : (I → Bool) → List (T × I) → List (T × Bool)
  synced_of wait [] = []
  synced_of wait ((t, i) ∷ order) = put t (wait i) (synced_of wait order)

module _ {T I K Q : Type 0} ⦃c : Eq T⦄ where
  -- `Start`: the factory, and the informers whose `Run` a goroutine has been started for.
  unfoldable pub start :
      List (T × I) → Factory T I K Q × List (T × I) → Factory T I K Q × List (T × I)
  unfolding start_each
  start order (f, runs) =
      let (started, runs') = start_each order (f.started_informers, runs) in
      (record f { started_informers = started }, runs')

  -- What follows the lookup: the informer that exists, or a fresh one, which is kept.
  unfoldable pub register : T → I → Factory T I K Q → Option I → Factory T I K Q × I
  register t fresh f none = (record f { informers = put t fresh f.informers }, fresh)
  register t fresh f (some i) = (f, i)

  -- `InformerFor`
  unfoldable pub informer_for : T → (K → ℕ → I) → Factory T I K Q → Factory T I K Q × I
  unfolding register
  informer_for t new_func f = register t (new_func f.client f.default_resync) f (find t f.informers)

  -- `TPRInformerFor`
  unfoldable pub tpr_informer_for : T → (Q → ℕ → I) → Factory T I K Q → Factory T I K Q × I
  unfolding register
  tpr_informer_for t new_func f =
      register t (new_func f.tpr_client f.default_resync) f (find t f.informers)

  -- `WaitForCacheSync`
  unfoldable pub wait_for_cache_sync : (I → Bool) → List (T × I) → Factory T I K Q → List (T × Bool)
  unfolding started_of synced_of
  wait_for_cache_sync wait order f = synced_of wait (started_of f.started_informers order)
