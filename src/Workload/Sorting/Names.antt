-- ===== src/Workload/Sorting/Names.antt =====
-- Sorting pod statuses keeps their names distinct.
use loadbalancer_controller.Common.{
  false, ◌≡◌, ◌∙◌, Bool-cases, inl, inr, List, [], ◌∷◌, All, ◌==◌, string_eq,
}
use loadbalancer_controller.Api.{PodStatus}
use loadbalancer_controller.LbUtil.Statuses.Order.{HasDistinctNames, eq_comm}
use loadbalancer_controller.Workload.Sorting.{less, insert_status, sort_statuses}

All-insert_status :
    (P : PodStatus → Type 0) (s : PodStatus) (ts : List PodStatus)
    → P s
    → All P ts
    → All P (insert_status s ts)
unfolding insert_status
All-insert_status P s [] p a = (p, tt)
All-insert_status P s (t ∷ ts) p a = elim (Bool-cases (less t s)) [
  | inl before ↦ rw before (a.0, All-insert_status P s ts p a.1)
  | inr after ↦ rw after (p, a)
]

All-sort_statuses :
    (P : PodStatus → Type 0) (ss : List PodStatus) → All P ss → All P (sort_statuses ss)
unfolding sort_statuses
All-sort_statuses P [] a = tt
All-sort_statuses P (s ∷ ss) a =
    All-insert_status P s (sort_statuses ss) a.0 (All-sort_statuses P ss a.1)

insert_status-HasDistinctNames :
    (s : PodStatus) (ts : List PodStatus)
    → All (λ c. (s.name == c.name) ≡ false) ts
    → HasDistinctNames ts
    → HasDistinctNames (insert_status s ts)
unfolding insert_status
insert_status-HasDistinctNames s [] a d = (tt, tt)
insert_status-HasDistinctNames s (t ∷ ts) a d = elim (Bool-cases (less t s)) [
  | inl before ↦ rw before (
    All-insert_status (λ c. (t.name == c.name) ≡ false) s ts (eq_comm t.name s.name ∙ a.0) d.0,
    insert_status-HasDistinctNames s ts a.1 d.1,
  )
  | inr after ↦ rw after (a, d)
]

pub sort_statuses-HasDistinctNames :
    (ss : List PodStatus) → HasDistinctNames ss → HasDistinctNames (sort_statuses ss)
unfolding sort_statuses
sort_statuses-HasDistinctNames [] d = tt
sort_statuses-HasDistinctNames (s ∷ ss) d =
    insert_status-HasDistinctNames s (sort_statuses ss)
      (All-sort_statuses (λ c. (s.name == c.name) ≡ false) ss d.0)
      (sort_statuses-HasDistinctNames ss d.1)
