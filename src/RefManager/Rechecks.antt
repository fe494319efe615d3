-- ===== src/RefManager/Rechecks.antt =====
-- How often a Claim of pkg/util/controller/controller_ref_manager.go makes a kind of call.
use loadbalancer_controller.Common.{
  ℕ, ◌+◌, ◌≤◌, arith, Bool, true, false, not, ◌||◌, Option, none, some, List, [], ◌∷◌, ◌==◌,
  string_eq, is_some, Bool-cases, inl, inr,
}
use loadbalancer_controller.Common.Effects.{
  Error, Reply, reply, failed, Result, ok, err, panic, blocked, Exec, continue, pure, observed,
}
use loadbalancer_controller.Api.{ObjectMeta, OwnerReference}
use loadbalancer_controller.Cluster.{Library, Call}
use loadbalancer_controller.RefManager.{
  RefManager, Once, after_adopt, after_release, claim_owned, claim_orphan, claim_by, claim_object,
  collect, claim_loop, claim_with, matches_selector,
}

-- The recheck is still to be made, or has been made.
abbrev pub budget : Once → ℕ
budget none = 1
budget (some r) = 0

-- For a number that the calls add up to: with the recheck that may follow, it is at most so much.
module _ (size : List Call → ℕ) where
  abbrev pub IsBounded : {X : Type 0} → ℕ → Result (X × Once) × List Call → Type 0
  IsBounded n (ok (x, once), h) = size h + budget once ≤ n
  IsBounded n (err e, h) = size h ≤ n
  IsBounded n (panic, h) = size h ≤ n
  IsBounded n (blocked, h) = size h ≤ n

  adopted-IsBounded :
      (n : ℕ) (out : Result (Reply (Unit {0}) × Once) × List Call)
      → IsBounded n out
      → IsBounded n (continue out.0 after_adopt out.1)
  unfolding after_adopt
  adopted-IsBounded n (ok (reply u, once), h) b = b
  adopted-IsBounded n (ok (failed e, once), h) b = b
  adopted-IsBounded n (err e, h) b = b
  adopted-IsBounded n (panic, h) b = b
  adopted-IsBounded n (blocked, h) b = b

  released-IsBounded :
      (n : ℕ) (once : Once) (out : Result (Unit {0}) × List Call)
      → size out.1 + budget once ≤ n
      → IsBounded n (continue (observed out.0) (after_release once) out.1)
  unfolding after_release
  released-IsBounded n once (ok u, h) b = b
  released-IsBounded n once (err e, h) b = b
  released-IsBounded n once (panic, h) b = omega (arith, b)
  released-IsBounded n once (blocked, h) b = omega (arith, b)

  module _ (L : Library) (m : RefManager) {A : Type 0} (meta_of : A → ObjectMeta)
      (adopt : A → Once → Exec Call (Reply (Unit {0}) × Once)) (release : A → Exec Call (Unit {0}))
      (adopts : (obj : A) (once : Once) (h : List Call)
        → IsBounded (size h + budget once) (adopt obj once h))
      (releases : (obj : A) (h : List Call) → size (release obj h).1 ≤ size h) where
    claim_by-IsBounded :
        (obj : A) (ref : Option OwnerReference) (once : Once) (h : List Call)
        → IsBounded (size h + budget once) (claim_by L m meta_of adopt release obj ref once h)
    unfolding claim_by claim_owned claim_orphan
    claim_by-IsBounded obj none once h =
        let n = size h + budget once in
        let same : IsBounded n (pure (reply false, once) h) = omega arith in
        elim (Bool-cases
          (is_some m.controller.deletion_timestamp || not (matches_selector L m meta_of obj))) [
            | inl skipped ↦ rw skipped same
            | inr wanted ↦ elim (Bool-cases (is_some (meta_of obj).deletion_timestamp)) [
              | inl deleted ↦ rw (wanted, deleted) same
              | inr alive ↦
                  rw (wanted, alive) (adopted-IsBounded n (adopt obj once h) (adopts obj once h))
            ]
          ]
    claim_by-IsBounded obj (some ref) once h =
        let n = size h + budget once in
        let same : IsBounded n (pure (reply false, once) h) = omega arith in
        let kept : IsBounded n (pure (reply true, once) h) = omega arith in
        elim (Bool-cases (ref.uid == m.controller.uid)) [
          | inr foreign ↦ rw foreign same
          | inl own ↦ elim (Bool-cases (matches_selector L m meta_of obj)) [
            | inl matching ↦ rw (own, matching) kept
            | inr stray ↦ elim (Bool-cases (is_some m.controller.deletion_timestamp)) [
              | inl deleted ↦ rw (own, stray, deleted) same
              | inr alive ↦
                  rw (own, stray, alive)
                    (released-IsBounded n once (release obj h) (omega (arith, releases obj h)))
            ]
          ]
        ]

    stepped :
        (objs : List A) (found : List A × List Error) (obj : A) (n : ℕ)
        (out : Result (Reply Bool × Once) × List Call)
        → ((once : Once) (g : List A × List Error) (h : List Call)
            → size (claim_loop L m meta_of adopt release objs once g h).1 ≤ size h + budget once)
        → IsBounded n out
        → size
            (continue out.0
              (λ (r, once').
                claim_loop L m meta_of adopt release objs once'
                  (collect L m meta_of adopt release obj r found))
              out.1).1
          ≤ n
    stepped objs found obj n (ok (r, once), h) rest b =
        omega (arith, b, rest once (collect L m meta_of adopt release obj r found) h)
    stepped objs found obj n (err e, h) rest b = b
    stepped objs found obj n (panic, h) rest b = b
    stepped objs found obj n (blocked, h) rest b = b

    claim_loop-size :
        (objs : List A) (once : Once) (found : List A × List Error) (h : List Call)
        → size (claim_loop L m meta_of adopt release objs once found h).1 ≤ size h + budget once
    unfolding claim_loop claim_object
    claim_loop-size [] once found h = omega arith
    claim_loop-size (obj ∷ objs) once found h =
        stepped objs found obj _ (claim_object L m meta_of adopt release obj once h)
          (claim_loop-size objs) (claim_by-IsBounded obj (L.get_controller_of (meta_of obj)) once h)

    finished :
        (n : ℕ) (out : Result (List A × List Error) × List Call)
        → size out.1 ≤ n
        → size
            (continue {B = List A × Option Error} out.0
              (λ (claimed, errs). pure (claimed, L.new_aggregate errs))
              out.1).1
          ≤ n
    finished n (ok (claimed, errs), h) b = b
    finished n (err e, h) b = b
    finished n (panic, h) b = b
    finished n (blocked, h) b = b

    -- If an adoption adds no more than the one recheck of a claim, and a release adds nothing, then
    -- a claim adds at most one.
    pub claim_with-size :
        (objs : List A) (h : List Call)
        → size (claim_with L m meta_of adopt release objs h).1 ≤ size h + 1
    unfolding claim_with
    claim_with-size objs h =
        finished _ (claim_loop L m meta_of adopt release objs none ([], []) h)
          (claim_loop-size objs none ([], []) h)
