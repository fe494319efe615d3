-- ===== src/RefManager/Claims.antt =====
-- Which objects Claim of pkg/util/controller/controller_ref_manager.go returns.
use loadbalancer_controller.Common.{
  Bool, true, false, not, ◌&&◌, ◌||◌, Option, none, some, List, [], ◌∷◌, ◌++◌,
}
use loadbalancer_controller.Common.{◌==◌, string_eq, is_some, ◌≡◌, refl, ◌∙◌, arith, keep_if}
use loadbalancer_controller.Common.{All, All-append, All-mono, All-mem, Bool-cases, inl, inr}
use loadbalancer_controller.Common.Effects.{
  Error, Reply, reply, failed, ok, err, panic, blocked, Result, Exec, pure, continue,
}
use loadbalancer_controller.Api.{ObjectMeta, OwnerReference}
use loadbalancer_controller.Cluster.{Library, Call}
use loadbalancer_controller.RefManager.{
  RefManager, Once, claim_object, claim_by, collect, claim_loop, claim_with,
}
use mathlib.Core.Path.{subst}
use mathlib.Core.List.{Mem, append-nil, append_assoc}

-- The reference is to the manager's controller.
abbrev pub is_owner : RefManager → Option OwnerReference → Bool
is_owner m none = false
is_owner m (some ref) = ref.uid == m.controller.uid

module _ (L : Library) (m : RefManager) {A : Type 0} (meta_of : A → ObjectMeta) where
  -- The object is controlled by the manager's controller, and the selector matches it.
  abbrev pub is_held : A → Bool
  is_held obj =
      is_owner m (L.get_controller_of (meta_of obj)) && L.matches m.selector (meta_of obj).labels

module _ (L : Library) (m : RefManager) {A : Type 0} (meta_of : A → ObjectMeta)
    (adopt : A → Once → Exec Call (Reply (Unit {0}) × Once)) (release : A → Exec Call (Unit {0}))
    (deleting : is_some m.controller.deletion_timestamp ≡ true) where
  claim_by-deleting :
      (obj : A) (ref : Option OwnerReference) (once : Once) (h : List Call)
      → claim_by L m meta_of adopt release obj ref once h
        ≡ (ok (reply (is_owner m ref && L.matches m.selector (meta_of obj).labels), once), h)
  unfolding claim_by
  claim_by-deleting obj none once h = rw deleting
  claim_by-deleting obj (some ref) once h = rw deleting (ground arith)

  claim_loop-deleting :
      (objs : List A) (once : Once) (found : List A) (errs : List Error) (h : List Call)
      → claim_loop L m meta_of adopt release objs once (found, errs) h
        ≡ (ok (found ++ keep_if (is_held L m meta_of) objs, errs), h)
  unfolding claim_loop
  claim_loop-deleting [] once found errs h = rw append-nil
  claim_loop-deleting (obj ∷ objs) once found errs h =
      rw claim_by-deleting (elim (Bool-cases (is_held L m meta_of obj)) [
        | inl held ↦
            rw held (claim_loop-deleting objs once (found ++ obj ∷ []) errs h ∙ rw append_assoc)
        | inr free ↦ rw free (claim_loop-deleting objs once found errs h)
      ])

  -- While the controller is being deleted, `Claim` makes no call, and returns exactly the objects
  -- that the controller holds already and that the selector matches, in their order.
  pub claim_with-deleting :
      (objs : List A) (h : List Call)
      → claim_with L m meta_of adopt release objs h
        ≡ (ok (keep_if (is_held L m meta_of) objs, L.new_aggregate []), h)
  unfolding claim_with
  claim_with-deleting objs h = rw claim_loop-deleting

-- A claimed object is matched by the selector, and was the controller's own or an orphan that
-- nothing is deleting.
module _ (L : Library) (m : RefManager) {A : Type 0} (meta_of : A → ObjectMeta) where
  abbrev pub is_adoptable : A → Bool
  is_adoptable obj =
      not (is_some (L.get_controller_of (meta_of obj)))
      && not (is_some m.controller.deletion_timestamp)
      && not (is_some (meta_of obj).deletion_timestamp)
      && L.matches m.selector (meta_of obj).labels

  abbrev pub is_claimable : A → Bool
  is_claimable obj = is_held L m meta_of obj || is_adoptable obj

module _ (L : Library) (m : RefManager) {A : Type 0} (meta_of : A → ObjectMeta)
    (adopt : A → Once → Exec Call (Reply (Unit {0}) × Once))
    (release : A → Exec Call (Unit {0})) where
  claim_object-claimable :
      (obj : A) (once once' : Once) (h h' : List Call)
      → claim_object L m meta_of adopt release obj once h ≡ (ok (reply true, once'), h')
      → is_claimable L m meta_of obj ≡ true
  unfolding claim_object
  claim_object-claimable obj once once' h h' e = ground arith

  collect-All :
      (P : A → Type 0) (obj : A) (r : Reply Bool) (found : List A × List Error)
      → (r ≡ reply true → P obj)
      → All P found.0
      → All P (collect L m meta_of adopt release obj r found).0
  unfolding collect
  collect-All P obj (reply true) found p a = All-append P found.0 (obj ∷ []) a (p refl, tt)
  collect-All P obj (reply false) found p a = a
  collect-All P obj (failed e) found p a = a

  abbrev pub IsSound : (A → Type 0) → Result (List A × List Error) → Type 0
  IsSound P (ok found) = All P found.0
  IsSound P r = Unit

  abbrev rest :
      A → List A → List A × List Error → Reply Bool × Once → Exec Call (List A × List Error)
  rest obj objs found (r, once) =
      claim_loop L m meta_of adopt release objs once (collect L m meta_of adopt release obj r found)

  claim_step-IsSound :
      (P : A → Type 0) (obj : A) (objs : List A) (once : Once) (found : List A × List Error)
      (h : List Call)
      → ((once : Once) (found : List A × List Error) (h : List Call)
          → All P found.0
          → IsSound P (claim_loop L m meta_of adopt release objs once found h).0)
      → (is_claimable L m meta_of obj ≡ true → P obj)
      → All P found.0
      → (x : Result (Reply Bool × Once) × List Call)
      → claim_object L m meta_of adopt release obj once h ≡ x
      → IsSound P (continue x.0 (rest obj objs found) x.1).0
  claim_step-IsSound P obj objs once found h rec p a (ok (r, once'), h') e = rec once' _ h' (
      collect-All P obj r found (λ t. p (claim_object-claimable obj once once' h h' (rw e (rw t))))
        a)
  claim_step-IsSound P obj objs once found h rec p a (err x, h') e = tt
  claim_step-IsSound P obj objs once found h rec p a (panic, h') e = tt
  claim_step-IsSound P obj objs once found h rec p a (blocked, h') e = tt

  claim_loop-IsSound :
      (P : A → Type 0) (objs : List A)
      → All (λ o. is_claimable L m meta_of o ≡ true → P o) objs
      → (once : Once) (found : List A × List Error) (h : List Call) → All P found.0
      → IsSound P (claim_loop L m meta_of adopt release objs once found h).0
  unfolding claim_loop
  claim_loop-IsSound P [] p once found h a = a
  claim_loop-IsSound P (obj ∷ objs) p once found h a =
      claim_step-IsSound P obj objs once found h (claim_loop-IsSound P objs p.1) p.0 a
        (claim_object L m meta_of adopt release obj once h) refl

  unwrap-IsSound :
      (P : A → Type 0) (x : Result (List A × List Error) × List Call) (claimed : List A)
      (e : Option Error) (h' : List Call)
      → IsSound P x.0
      → continue {B = List A × Option Error} x.0
          (λ (found : List A × List Error). pure (found.0, L.new_aggregate found.1))
          x.1
        ≡ (ok (claimed, e), h')
      → All P claimed
  unwrap-IsSound P (ok found, h) claimed e h' s q =
      let same : found.0 ≡ claimed = cc in subst (All P) same s
  unwrap-IsSound P (err x, h) claimed e h' s q = cc
  unwrap-IsSound P (panic, h) claimed e h' s q = cc
  unwrap-IsSound P (blocked, h) claimed e h' s q = cc

  -- What `Claim` returns was handed to it, is matched by the selector, and was controlled by the
  -- controller or was an orphan, neither of the two being deleted.
  pub claim_with-claimable :
      (objs : List A) (h : List Call) (claimed : List A) (e : Option Error) (h' : List Call)
      → claim_with L m meta_of adopt release objs h ≡ (ok (claimed, e), h')
      → All (λ o. (is_claimable L m meta_of o ≡ true) × Mem o objs) claimed
  unfolding claim_with
  claim_with-claimable objs h claimed e h' q =
      unwrap-IsSound _ (claim_loop L m meta_of adopt release objs none ([], []) h) claimed e h'
        (claim_loop-IsSound _ objs (All-mono objs (λ o i c. (c, i)) (All-mem objs)) none ([], []) h
          tt)
        q
