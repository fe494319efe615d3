-- ===== src/Informers/Factory/Phases.antt =====
-- The phases of the informer of a type: what Start, InformerFor, TPRInformerFor and
-- WaitForCacheSync of pkg/informers/factory.go do to each type.
use loadbalancer_controller.Common.{
  Bool, true, false, Option, none, some, List, [], ◌∷◌, ◌≡◌, refl, arith,
}
use loadbalancer_controller.Common.{
  if◌then◌else◌, Eq, ◌==◌, Bool-cases, Option-cases, is_some, ◌||◌, inl, inr,
}
use loadbalancer_controller.Common.Table.{find, put, find-put, HasUniqueKeys, IsListing}
use loadbalancer_controller.Informers.Factory.{
  Factory, or_false, is_started, start_one, start_each, start, register,
}

-- A type has no informer, or one that is not started, or one that is.
pub data Phase (I : Type 0) : Type 0 where
  absent : Phase I
  idle running : I → Phase I

module _ {I : Type 0} where
  unfoldable pub phase_of : Option I → Bool → Phase I
  phase_of none started = absent
  phase_of (some i) false = idle i
  phase_of (some i) true = running i

  -- To ask for an informer.
  unfoldable pub requested : I → Phase I → Phase I
  requested fresh absent = idle fresh
  requested fresh (idle i) = idle i
  requested fresh (running i) = running i

  -- To start the informers.
  unfoldable pub begun : Phase I → Phase I
  begun absent = absent
  begun (idle i) = running i
  begun (running i) = running i

  -- The informer that has been started.
  unfoldable pub started_in : Phase I → Option I
  started_in absent = none
  started_in (idle i) = none
  started_in (running i) = some i

  -- The informer of the type.
  unfoldable pub informer_in : Phase I → Option I
  informer_in absent = none
  informer_in (idle i) = some i
  informer_in (running i) = some i

module _ {T : Type 0} ⦃c : Eq T⦄ where
  is_started-put :
      (t u : T) (started : List (T × Bool))
      → is_started u (put t true started) ≡ (if t == u then true else is_started u started)
  unfolding is_started or_false
  is_started-put t u started =
      rw (find-put started t u true)
        (elim (Bool-cases (t == u)) [ inl same ↦ rw same refl | inr other ↦ rw other refl ])

module _ {T I : Type 0} ⦃c : Eq T⦄ where
  pub start_each-cons :
      (t : T) (i : I) (order : List (T × I)) (started : List (T × Bool)) (runs : List (T × I))
      → start_each ((t, i) ∷ order) (started, runs)
        ≡ start_each order
            (if is_started t started then (started, runs) else (put t true started, (t, i) ∷ runs))
  unfolding start_one start_each
  start_each-cons t i order started runs = refl

  pub start_each-started :
      (order : List (T × I)) (started : List (T × Bool)) (runs : List (T × I)) (u : T)
      → is_started u (start_each order (started, runs)).0
        ≡ (is_some (find u order) || is_started u started)
  unfolding start_each find
  start_each-started [] started runs u = refl
  start_each-started ((t, i) ∷ order) started runs u = elim (Bool-cases (is_started t started)) [
    | inl yet ↦
        rw (start_each-cons t i order started runs, yet, start_each-started order started runs u)
          (ground (arith, yet, c.equals_iff t u))
    | inr new ↦
        rw
          (
            start_each-cons t i order started runs,
            new,
            start_each-started order (put t true started) ((t, i) ∷ runs) u,
            is_started-put t u started,
          )
          (ground arith)
  ]

  -- What has not been started does not run.
  abbrev pub AreStarted : List (T × Bool) → List (T × I) → Type 0
  AreStarted started runs = (u : T) → (is_started u started ≡ false) → find u runs ≡ none

  pub start_each-runs :
      (order : List (T × I)) (started : List (T × Bool)) (runs : List (T × I))
      → AreStarted started runs
      → HasUniqueKeys runs
      → HasUniqueKeys (start_each order (started, runs)).1
        × ((u : T)
            → find u (start_each order (started, runs)).1
              ≡ (if is_started u started then find u runs else find u order))
  unfolding start_each find
  start_each-runs [] started runs a d = (d, λ u. ground (arith, a u))
  start_each-runs ((t, i) ∷ order) started runs a d = elim (Bool-cases (is_started t started)) [
    | inl yet ↦
        rw (start_each-cons t i order started runs, yet)
          (let rest = start_each-runs order started runs a d in
            (rest.0, λ u. ground (arith, yet, rest.1 u, a u, c.equals_iff t u)))
    | inr new ↦
        rw (start_each-cons t i order started runs, new)
          (let rest =
              start_each-runs order (put t true started) ((t, i) ∷ runs)
                (λ u h. ground (arith, is_started-put t u started, h, a u)) (a t new, d) in
            (
              rest.0,
              λ u. ground (arith, new, rest.1 u, is_started-put t u started, c.equals_iff t u),
            ))
  ]

module _ {T I K Q : Type 0} ⦃c : Eq T⦄ where
  -- The phase of a type in a factory.
  unfoldable pub view : Factory T I K Q → T → Phase I
  unfolding phase_of is_started
  view f t = phase_of (find t f.informers) (is_started t f.started_informers)

  -- Only types with an informer are started, those whose informer runs, and no informer runs twice.
  abbrev pub IsSound : Factory T I K Q × List (T × I) → Type 0
  IsSound (f, runs) =
      HasUniqueKeys runs
      × ((t : T) → (find t f.informers ≡ none) → is_started t f.started_informers ≡ false)
      × ((t : T) → find t runs ≡ started_in (view f t))

  -- `InformerFor` and `TPRInformerFor` have the same effect.
  pub view-register :
      (f : Factory T I K Q) (t u : T) (fresh : I)
      → ((v : T) → (find v f.informers ≡ none) → is_started v f.started_informers ≡ false)
      → view (register t fresh f (find t f.informers)).0 u
        ≡ (if t == u then requested fresh (view f u) else view f u)
  unfolding view register requested phase_of
  view-register f t u fresh h = elim (Option-cases (find t f.informers)) [
    | inl e ↦ rw (e, find-put f.informers t u fresh) (ground (arith, e, c.equals_iff t u, h t e))
    | inr (i, e) ↦ rw e (ground (arith, e, c.equals_iff t u))
  ]

  -- What `Start` does to each type, whatever the order of its `range`.
  pub view-start :
      (f : Factory T I K Q) (runs order : List (T × I)) (u : T)
      → IsListing order f.informers
      → view (start order (f, runs)).0 u ≡ begun (view f u)
  unfolding view start begun phase_of
  view-start f runs order u l = elim (Option-cases (find u f.informers)) [
    | inl e ↦ rw e refl
    | inr (i, e) ↦ rw (start_each-started order f.started_informers runs u, l.1 u, e) (ground arith)
  ]

  pub start-IsSound :
      (f : Factory T I K Q) (runs order : List (T × I))
      → IsListing order f.informers
      → IsSound (f, runs)
      → IsSound (start order (f, runs))
  unfolding view start phase_of started_in
  start-IsSound f runs order l s =
      let ran =
        start_each-runs order f.started_informers runs (λ u h. ground (arith, s.2 u, h)) s.0 in
      (
        ran.0,
        λ u h.
            rw (start_each-started order f.started_informers runs u)
              (ground (arith, l.1 u, h, s.1 u h)),
        λ u. elim (Option-cases (find u f.informers)) [
          | inl e ↦
              rw (ran.1 u, start_each-started order f.started_informers runs u, l.1 u, e)
                (ground (arith, s.1 u e))
          | inr (i, e) ↦
              rw (ran.1 u, start_each-started order f.started_informers runs u, l.1 u, e)
                (ground (arith, s.2 u, e))
        ],
      )

  register-started :
      (f : Factory T I K Q) (t u : T) (fresh : I)
      → ((v : T) → (find v f.informers ≡ none) → is_started v f.started_informers ≡ false)
      → (find u (register t fresh f (find t f.informers)).0.informers ≡ none)
      → is_started u (register t fresh f (find t f.informers)).0.started_informers ≡ false
  unfolding register
  register-started f t u fresh s = elim (Option-cases (find t f.informers)) [
    | inl e ↦ rw (e, find-put f.informers t u fresh) (λ h. ground (arith, h, s u))
    | inr (i, e) ↦ rw e (s u)
  ]

  pub register-IsSound :
      (f : Factory T I K Q) (runs : List (T × I)) (t : T) (fresh : I)
      → IsSound (f, runs)
      → IsSound ((register t fresh f (find t f.informers)).0, runs)
  unfolding requested started_in
  register-IsSound f runs t fresh s = (
    s.0,
    λ u. register-started f t u fresh s.1,
    λ u. rw (view-register f t u fresh s.1) (ground (arith, s.2 u)),
  )
