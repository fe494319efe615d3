-- ===== src/Informers/Factory/Life.antt =====
-- The calls of a factory of pkg/informers/factory.go, in any order.
use loadbalancer_controller.Common.{ℕ, List, [], refl}
use loadbalancer_controller.Common.{Eq}
use loadbalancer_controller.Common.Table.{find, IsListing}
use loadbalancer_controller.Informers.Factory.{
  Factory, new_shared_informer_factory, is_started, start, informer_for, tpr_informer_for,
}
use loadbalancer_controller.Informers.Factory.Phases.{
  phase_of, started_in, view, IsSound, register-IsSound, start-IsSound,
}

module _ {T I K Q : Type 0} ⦃c : Eq T⦄ where
  -- One call of a factory, beside the informers that goroutines run.
  pub data Step : Factory T I K Q × List (T × I) → Factory T I K Q × List (T × I) → Type 0 where
    ask :
        (t : T) (new_func : K → ℕ → I) (f : Factory T I K Q) (runs : List (T × I))
        → Step (f, runs) ((informer_for t new_func f).0, runs)
    ask_tpr :
        (t : T) (new_func : Q → ℕ → I) (f : Factory T I K Q) (runs : List (T × I))
        → Step (f, runs) ((tpr_informer_for t new_func f).0, runs)
    begin :
        (order : List (T × I)) (f : Factory T I K Q) (runs : List (T × I))
        → IsListing order f.informers
        → Step (f, runs) (start order (f, runs))

  pub data Reach (w : Factory T I K Q × List (T × I))
      : Factory T I K Q × List (T × I) → Type 0 where
    here : Reach w w
    next : {u v : Factory T I K Q × List (T × I)} → Reach w u → Step u v → Reach w v

  pub Step-IsSound : {w v : Factory T I K Q × List (T × I)} → Step w v → IsSound w → IsSound v
  unfolding informer_for tpr_informer_for
  Step-IsSound (ask t new_func f runs) s = register-IsSound f runs t _ s
  Step-IsSound (ask_tpr t new_func f runs) s = register-IsSound f runs t _ s
  Step-IsSound (begin order f runs l) s = start-IsSound f runs order l s

  pub IsSound-Reach : {w v : Factory T I K Q × List (T × I)} → IsSound w → Reach w v → IsSound v
  IsSound-Reach s here = s
  IsSound-Reach s (next r st) = Step-IsSound st (IsSound-Reach s r)

  new-IsSound :
      (client : K) (tpr_client : Q) (resync : ℕ)
      → IsSound {T = T} {I = I} (new_shared_informer_factory client tpr_client resync, [])
  unfolding view phase_of started_in is_started find
  new-IsSound client tpr_client resync = (tt, λ t h. refl, λ t. refl)

  -- After any calls of `InformerFor`, `TPRInformerFor` and `Start` on a new factory, no informer has
  -- been run twice, and what runs for a type is the informer that the factory has for it, if that is
  -- marked as started, and nothing otherwise.
  pub Reach-IsSound :
      (client : K) (tpr_client : Q) (resync : ℕ) (w : Factory T I K Q × List (T × I))
      → Reach (new_shared_informer_factory client tpr_client resync, []) w
      → IsSound w
  Reach-IsSound client tpr_client resync w r =
      IsSound-Reach (new-IsSound client tpr_client resync) r
