-- ===== src/Workload/Sorting.antt =====
-- `sort.Sort(lbutil.SortPodStatusByName(…))`: SortPodStatusByName of pkg/util/lb/lb.go.
pub mod Order
pub mod Names
use Prim.Native.Nat.{Ordering}
use Prim.Native.String.{compare}
use loadbalancer_controller.Common.{Bool, true, false, List, [], ◌∷◌, if◌then◌else◌}
use loadbalancer_controller.Api.{PodStatus}

-- `Less`
abbrev pub less : PodStatus → PodStatus → Bool
less a b = elim (compare a.name b.name) [ Ordering.lt ↦ true | _ ↦ false ]

unfoldable pub insert_status : PodStatus → List PodStatus → List PodStatus
insert_status s [] = s ∷ []
insert_status s (t ∷ ts) =
    let rest = insert_status s ts in if less t s then t ∷ rest else s ∷ t ∷ ts

-- The statuses in the order of their names.
unfoldable pub sort_statuses : List PodStatus → List PodStatus
unfolding insert_status
sort_statuses [] = []
sort_statuses (s ∷ ss) = insert_status s (sort_statuses ss)
