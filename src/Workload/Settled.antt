-- ===== src/Workload/Settled.antt =====
-- The pod statuses that two runs of syncStatus of proxy/proxies/nginx/status.go or
-- provider/providers/ipvsdr/status.go find for the same pods.
use mathlib.Core.List.{Perm}
use mathlib.Core.List.Perm
use loadbalancer_controller.Common.{ℕ, true, ◌≡◌, refl, List}
use loadbalancer_controller.Api.{PodStatus, PodStatuses}
use loadbalancer_controller.LbUtil.Statuses.{pod_statuses_equal}
use loadbalancer_controller.LbUtil.Statuses.Order.{HasDistinctNames, pod_statuses_equal_iff}
use loadbalancer_controller.Workload.Totals.{totals}
use loadbalancer_controller.Workload.Sorting.{sort_statuses}
use loadbalancer_controller.Workload.Sorting.Order.{sort_statuses_lem}
use loadbalancer_controller.Workload.Sorting.Names.{sort_statuses-HasDistinctNames}

-- The pod statuses that are written: those found, sorted.
abbrev pub sorted : PodStatuses → PodStatuses
sorted found = record found { statuses = sort_statuses found.statuses }

pub sorted-equal :
    (n m r : ℕ) (a b : List PodStatus)
    → HasDistinctNames a
    → HasDistinctNames b
    → Perm a b
    → pod_statuses_equal (sorted (totals n m r a)) (sorted (totals n m r b)) ≡ true
sorted-equal n m r a b da db p =
    (pod_statuses_equal_iff _ _ (sort_statuses-HasDistinctNames a da)
        (sort_statuses-HasDistinctNames b db)).1
      (
        record { replicas = refl; total_replicas = refl; ready_replicas = refl },
        Perm.trans (sort_statuses_lem a).0 (Perm.trans p (Perm.symm (sort_statuses_lem b).0)),
      )
