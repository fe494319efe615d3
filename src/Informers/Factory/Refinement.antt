-- ===== src/Informers/Factory/Refinement.antt =====
-- The factory of pkg/informers/factory.go against one that knows the phase of each type only.
use loadbalancer_controller.Common.{ℕ, some, List, [], ◌≡◌, refl, ◌∙◌, arith}
use loadbalancer_controller.Common.{if◌then◌else◌, Eq, ◌==◌, ◌⊎◌, Option-cases, inl, inr}
use loadbalancer_controller.Common.Table.{find, find-put}
use loadbalancer_controller.Informers.Factory.{
  Factory, new_shared_informer_factory, register, informer_for, tpr_informer_for,
}
use loadbalancer_controller.Informers.Factory.Phases.{
  Phase, phase_of, requested, begun, informer_in, view, IsSound, view-register, view-start,
  register-IsSound,
}
use loadbalancer_controller.Informers.Factory.Life.{
  Step, ask, ask_tpr, begin, Reach, here, next, IsSound-Reach, Reach-IsSound,
}

module _ {T I : Type 0} ⦃c : Eq T⦄ where
  -- A step of the abstract factory: it asks for the informer of one type, or starts all idle ones.
  abbrev pub AbstractStep : (T → Phase I) → (T → Phase I) → Type 0
  AbstractStep before after =
      ((t : T) × (fresh : I) × ((u : T)
          → after u ≡ (if t == u then requested fresh (before u) else before u)))
      ⊎ ((u : T) → after u ≡ begun (before u))

  -- A type keeps its informer.
  AbstractStep-keeps :
      (before after : T → Phase I) (t : T) (i : I)
      → AbstractStep before after
      → (informer_in (before t) ≡ some i)
      → informer_in (after t) ≡ some i
  unfolding informer_in requested begun
  AbstractStep-keeps before after t i (inl (u, fresh, e)) h = ground (arith, e t, h)
  AbstractStep-keeps before after t i (inr e) h = ground (arith, e t, h)

module _ {T I K Q : Type 0} ⦃c : Eq T⦄ where
  Step-AbstractStep :
      {w v : Factory T I K Q × List (T × I)}
      → Step w v
      → IsSound w
      → AbstractStep (view w.0) (view v.0)
  unfolding informer_for tpr_informer_for
  Step-AbstractStep (ask t new_func f runs) s =
      inl (t, new_func f.client f.default_resync, λ u. view-register f t u _ s.1)
  Step-AbstractStep (ask_tpr t new_func f runs) s =
      inl (t, new_func f.tpr_client f.default_resync, λ u. view-register f t u _ s.1)
  Step-AbstractStep (begin order f runs l) s = inr (λ u. view-start f runs order u l)

  -- A call of `InformerFor`, `TPRInformerFor` or `Start` on a factory that only such calls have
  -- reached from a new one is a step of the abstract factory: for one type, it supplies an informer
  -- if there is none and leaves all other types alone, or it lets exactly the idle informers run,
  -- whatever the order in which `Start` visits them.
  pub Reach-AbstractStep :
      (client : K) (tpr_client : Q) (resync : ℕ) (w v : Factory T I K Q × List (T × I))
      → Reach (new_shared_informer_factory client tpr_client resync, []) w
      → Step w v
      → AbstractStep (view w.0) (view v.0)
  Reach-AbstractStep client tpr_client resync w v r st =
      Step-AbstractStep st (Reach-IsSound client tpr_client resync w r)

  Reach-keeps :
      {w v : Factory T I K Q × List (T × I)} (t : T) (i : I)
      → IsSound w
      → Reach w v
      → (informer_in (view w.0 t) ≡ some i)
      → informer_in (view v.0 t) ≡ some i
  Reach-keeps t i s here h = h
  Reach-keeps t i s (next r st) h =
      AbstractStep-keeps _ _ t i (Step-AbstractStep st (IsSound-Reach s r)) (Reach-keeps t i s r h)

  informer_in-view : (f : Factory T I K Q) (t : T) → informer_in (view f t) ≡ find t f.informers
  unfolding view phase_of informer_in
  informer_in-view f t = ground arith

  find-register :
      (f : Factory T I K Q) (t : T) (fresh : I)
      → let (f', i) = register t fresh f (find t f.informers) in find t f'.informers ≡ some i
  unfolding register
  find-register f t fresh = elim (Option-cases (find t f.informers)) [
    | inl e ↦ rw (e, find-put f.informers t t fresh, (c.equals_iff t t).1 refl) refl
    | inr (i, e) ↦ rw (e, e) refl
  ]

  register_again :
      (f g : Factory T I K Q) (runs runs' : List (T × I)) (t : T) (fresh other : I)
      → IsSound (f, runs)
      → Reach ((register t fresh f (find t f.informers)).0, runs) (g, runs')
      → register t other g (find t g.informers) ≡ (g, (register t fresh f (find t f.informers)).1)
  unfolding register
  register_again f g runs runs' t fresh other s r =
      let (f', i) = register t fresh f (find t f.informers) in
      rw
        (
          ← informer_in-view g t,
          Reach-keeps t i (register-IsSound f runs t fresh s) r
              (informer_in-view f' t ∙ find-register f t fresh),
        )
        refl

  -- Once `InformerFor` has given an informer for a type, on a factory that only the calls of
  -- `InformerFor`, `TPRInformerFor` and `Start` have reached from a new one, `InformerFor` and
  -- `TPRInformerFor` give that same informer for the type and leave the factory as it is, after any
  -- such calls and whatever function they are given to make another.
  pub informer_for_again :
      (client : K) (tpr_client : Q) (resync : ℕ) (f g : Factory T I K Q) (runs runs' : List (T × I))
      (t : T) (new_func other : K → ℕ → I) (tpr_other : Q → ℕ → I)
      → Reach (new_shared_informer_factory client tpr_client resync, []) (f, runs)
      → Reach ((informer_for t new_func f).0, runs) (g, runs')
      → (informer_for t other g ≡ (g, (informer_for t new_func f).1))
        × (tpr_informer_for t tpr_other g ≡ (g, (informer_for t new_func f).1))
  unfolding informer_for tpr_informer_for
  informer_for_again client tpr_client resync f g runs runs' t new_func other tpr_other r r' =
      let s = Reach-IsSound client tpr_client resync (f, runs) r in
      (register_again f g runs runs' t _ _ s r', register_again f g runs runs' t _ _ s r')
