-- ===== src/Workload/Sorting/Order.antt =====
-- What the sorting of pod statuses gives.
use Prim.Native.Nat.{Ordering, compare as compare_ℕ}
use Prim.Native.Char.{code}
use Prim.Native.String.compare
use Prim.Native.String.{then, compare}
use mathlib.Core.List.{Perm}
use mathlib.Core.List.Perm
use loadbalancer_controller.Common.{
  ℕ, String, arith, true, false, ◌≡◌, refl, Bool-cases, inl, inr, List, [], ◌∷◌,
}
use loadbalancer_controller.Api.{PodStatus}
use loadbalancer_controller.Workload.Sorting.{less, insert_status, sort_statuses}

insert_status-Perm : (s : PodStatus) (ts : List PodStatus) → Perm (insert_status s ts) (s ∷ ts)
unfolding insert_status
insert_status-Perm s [] = Perm.refl (s ∷ [])
insert_status-Perm s (t ∷ ts) = elim (Bool-cases (less t s)) [
  | inl before ↦ rw before (Perm.trans (Perm.cons t (insert_status-Perm s ts)) (Perm.swap s t ts))
  | inr after ↦ rw after (Perm.refl (s ∷ t ∷ ts))
]

abbrev flip : Ordering → Ordering
flip Ordering.lt = Ordering.gt
flip Ordering.eq = Ordering.eq
flip Ordering.gt = Ordering.lt

then-flip : (o p : Ordering) → then (flip o) (flip p) ≡ flip (then o p)
then-flip Ordering.lt p = refl
then-flip Ordering.eq p = refl
then-flip Ordering.gt p = refl

flip_ℕ : (m n : ℕ) → compare_ℕ n m ≡ flip (compare_ℕ m n)
flip_ℕ m n = ground arith

flip_String : (s t : String) → compare t s ≡ flip (compare s t)
flip_String String.[] String.[] = refl
flip_String String.[] (String.◌∷◌ d t) = rw (compare.nil-cons d t, compare.cons-nil d t) refl
flip_String (String.◌∷◌ c s) String.[] = rw (compare.nil-cons c s, compare.cons-nil c s) refl
flip_String (String.◌∷◌ c s) (String.◌∷◌ d t) =
    rw
      (
        compare.cons-cons c d s t,
        compare.cons-cons d c t s,
        flip_ℕ (code c) (code d),
        flip_String s t,
      )
      (then-flip (compare_ℕ (code c) (code d)) (compare s t))

-- Of two statuses, not both come before the other.
less-asym : (s t : PodStatus) → less t s ≡ true → less s t ≡ false
less-asym s t h = ground (arith, flip_String s.name t.name)

-- No status comes before the one in front of it.
abbrev pub IsSorted : List PodStatus → Type 0
IsSorted [] = Unit
IsSorted (s ∷ ss) = elim ss [ [] ↦ Unit | t ∷ ts ↦ (less t s ≡ false) × IsSorted ss ]

insert_status-IsSorted :
    (s : PodStatus) (ts : List PodStatus) → IsSorted ts → IsSorted (insert_status s ts)
unfolding insert_status
insert_status-IsSorted s [] h = tt
insert_status-IsSorted s (t ∷ []) h = elim (Bool-cases (less t s)) [
  | inl before ↦ rw before (less-asym s t before, tt)
  | inr after ↦ rw after (after, tt)
]
insert_status-IsSorted s (t ∷ u ∷ us) h = elim (Bool-cases (less t s)) [
  | inl before ↦
      let rest = insert_status-IsSorted s (u ∷ us) h.1 in
      elim (Bool-cases (less u s)) [
        | inl second ↦ rw (before, second) (h.0, rw second at rest)
        | inr first ↦ rw (before, first) (less-asym s t before, rw first at rest)
      ]
  | inr after ↦ rw after (after, h)
]

sort_statuses-Perm : (ss : List PodStatus) → Perm (sort_statuses ss) ss
unfolding sort_statuses
sort_statuses-Perm [] = Perm.nil
sort_statuses-Perm (s ∷ ss) =
    Perm.trans (insert_status-Perm s (sort_statuses ss)) (Perm.cons s (sort_statuses-Perm ss))

sort_statuses-IsSorted : (ss : List PodStatus) → IsSorted (sort_statuses ss)
unfolding sort_statuses
sort_statuses-IsSorted [] = tt
sort_statuses-IsSorted (s ∷ ss) =
    insert_status-IsSorted s (sort_statuses ss) (sort_statuses-IsSorted ss)

-- The sorted statuses are the given ones in another order, in which none has a smaller name than
-- the one in front of it.
pub sort_statuses_lem :
    (ss : List PodStatus) → Perm (sort_statuses ss) ss × IsSorted (sort_statuses ss)
sort_statuses_lem ss = (sort_statuses-Perm ss, sort_statuses-IsSorted ss)
