-- ===== src/LbUtil/Statuses/Order.antt =====
-- PodStatusesEqual of pkg/util/lb/lb.go compares the statuses up to their order.
use mathlib.Core.List
use mathlib.Core.List.{Mem, mem-cons, not-mem-nil, Mem-prop, Nodup, Perm, Subset}
use mathlib.Core.List.Nodup
use mathlib.Core.List.Perm
use mathlib.Core.List.Subperm
use mathlib.Core.Bool.{false≢true, Bool-set}
use mathlib.Core.Logic.Or
use text.Mathlib.TextPositions.{eq_refl}
use text.Mathlib.TextEquality.{eq_iff}
use native.Mathlib.Bridge.{from_ℕ, from_le⁻¹}
use loadbalancer_controller.Common.{suc, ◌≡◌, refl, sym, ap, ◌∙◌, ◌↔◌, String, true, false, ◌∷◌, []}
use loadbalancer_controller.Common.{
  length, All, ◌==◌, nat_eq, string_eq, arith, Bool-cases, inl, inr,
}
use loadbalancer_controller.Api.{PodStatus, PodStatuses, pod_status_eq}
use loadbalancer_controller.LbUtil.Statuses.{has_equal, all_have_equal, pod_statuses_equal}

abbrev pub HasDistinctNames : List.List PodStatus → Type 0
HasDistinctNames [] = Unit
HasDistinctNames (b ∷ bs) = All (λ c. (b.name == c.name) ≡ false) bs × HasDistinctNames bs

length_as_ℕ {ℓ} : {A : Type ℓ} (xs : List.List A) → from_ℕ (List.length xs) ≡ length xs
length_as_ℕ [] = refl
length_as_ℕ (x ∷ xs) = ap suc (length_as_ℕ xs)

all_at {ℓ} :
    {A : Type ℓ} (P : A → Type 0) (xs : List.List A) (a : A)
    → ((x : A) → IsProp (P x))
    → All P xs
    → Mem a xs
    → P a
all_at P [] a p h m = absurd (not-mem-nil m)
all_at P (x ∷ xs) a p h m =
    Or.elim (p a) (mem-cons.0 m) (λ e. rw e h.0) (λ r. all_at P xs a p h.1 r)

pub eq_comm : (s t : String) → (s == t) ≡ (t == s)
eq_comm s t = ground (arith, eq_iff s t, eq_iff t s)

has_equal-mem : (s : PodStatus) (bs : List.List PodStatus) → has_equal s bs ≡ true → Mem s bs
unfolding has_equal
has_equal-mem s [] h = absurd (false≢true h)
has_equal-mem s (b ∷ bs) h = elim (Bool-cases (s.name == b.name)) [
  | inl same ↦ mem-cons.1 (Or.inl ((pod_status_eq.equals_iff s b).0 (rw same at h)))
  | inr differ ↦ mem-cons.1 (Or.inr (has_equal-mem s bs (rw differ at h)))
]

mem-has_equal :
    (s : PodStatus) (bs : List.List PodStatus)
    → HasDistinctNames bs
    → Mem s bs
    → has_equal s bs ≡ true
unfolding has_equal
mem-has_equal s [] d m = absurd (not-mem-nil m)
mem-has_equal s (b ∷ bs) d m =
    Or.elim (Bool-set _ _) (mem-cons.0 m)
      (λ e. rw (e, eq_refl b.name) ((pod_status_eq.equals_iff b b).1 refl))
      (λ r.
        rw
          (
            eq_comm s.name b.name,
            all_at (λ c. (b.name == c.name) ≡ false) bs s (λ c. Bool-set _ _) d.0 r,
          )
          (mem-has_equal s bs d.1 r))

all_have_equal-subset :
    (as' bs : List.List PodStatus) → all_have_equal as' bs ≡ true → Subset as' bs
unfolding all_have_equal
all_have_equal-subset [] bs h a m = absurd (not-mem-nil m)
all_have_equal-subset (x ∷ as') bs h a m =
    Or.elim Mem-prop (mem-cons.0 m) (λ e. rw e (has_equal-mem x bs (ground arith)))
      (λ r. all_have_equal-subset as' bs (ground arith) a r)

subset-all_have_equal :
    (as' bs : List.List PodStatus)
    → HasDistinctNames bs
    → Subset as' bs
    → all_have_equal as' bs ≡ true
unfolding all_have_equal
subset-all_have_equal [] bs d s = refl
subset-all_have_equal (x ∷ as') bs d s =
    rw (mem-has_equal x bs d (s x (mem-cons.1 (Or.inl refl))))
      (subset-all_have_equal as' bs d (λ a m. s a (mem-cons.1 (Or.inr m))))

HasDistinctNames-Nodup : (bs : List.List PodStatus) → HasDistinctNames bs → Nodup bs
HasDistinctNames-Nodup [] d = List.Nodup-nil
HasDistinctNames-Nodup (b ∷ bs) d = List.Nodup-cons.1 (
  λ m. false≢true (
      sym (all_at (λ c. (b.name == c.name) ≡ false) bs b (λ c. Bool-set _ _) d.0 m)
      ∙ eq_refl b.name),
  HasDistinctNames-Nodup bs d.1,
)

-- The counters that are compared beside the statuses.
pub record SameCounters (a b : PodStatuses) : Type 0 where
  pub replicas : a.replicas ≡ b.replicas
  pub total_replicas : a.total_replicas ≡ b.total_replicas
  pub ready_replicas : a.ready_replicas ≡ b.ready_replicas

pod_statuses_equal-parts :
    (a b : PodStatuses)
    → pod_statuses_equal a b ≡ true
    → (length a.statuses ≡ length b.statuses)
      × SameCounters a b
      × (all_have_equal a.statuses b.statuses ≡ true)
unfolding pod_statuses_equal
pod_statuses_equal-parts a b h = (
  ground (arith),
  record {
    replicas = ground (arith);
    total_replicas = ground arith;
    ready_replicas = ground arith;
  },
  ground arith,
)

parts-pod_statuses_equal :
    (a b : PodStatuses)
    → length a.statuses ≡ length b.statuses
    → SameCounters a b
    → all_have_equal a.statuses b.statuses ≡ true
    → pod_statuses_equal a b ≡ true
unfolding pod_statuses_equal
parts-pod_statuses_equal a b n c e = ground arith

-- For statuses with distinct names, `PodStatusesEqual` returns true exactly when the counters
-- agree and the statuses are the same up to their order.
pub pod_statuses_equal_iff :
    (a b : PodStatuses)
    → HasDistinctNames a.statuses
    → HasDistinctNames b.statuses
    → (pod_statuses_equal a b ≡ true) ↔ (SameCounters a b × Perm a.statuses b.statuses)
pod_statuses_equal_iff a b da db = (
  λ h.
      let (n, c, e) = pod_statuses_equal-parts a b h in
      (
        c,
        Subperm.perm_of_length_le
            (Nodup.subperm (HasDistinctNames-Nodup a.statuses da) (all_have_equal-subset _ _ e))
            (from_le⁻¹ _ _ (omega (arith, length_as_ℕ {0} a.statuses, length_as_ℕ {0} b.statuses))),
      ),
  λ r.
      parts-pod_statuses_equal a b
        (sym (length_as_ℕ a.statuses) ∙ ap from_ℕ (Perm.length-eq r.1) ∙ length_as_ℕ b.statuses) r.0
        (subset-all_have_equal a.statuses b.statuses db (λ s m. (Perm.mem_iff r.1).0 m)),
)
