-- ===== src/Listers/Cache.antt =====
-- The listers of pkg/listers/networking/v1alpha1/loadbalancer.go over the vendored cache.
use loadbalancer_controller.Common.{
  String, ◌<>◌, Option, none, some, List, [], ◌∷◌, ◌++◌, ◌≡◌, ◌∙◌, map,
}
use loadbalancer_controller.Common.Effects.{
  Error, not_found, Reply, reply, failed, Result, ok, err, panic, blocked,
}
use loadbalancer_controller.Common.GoMap.{GoMap}
use loadbalancer_controller.Api.{LoadBalancer}
use loadbalancer_controller.Cluster.{Obj, load_balancer}
use mathlib.Core.List.{append_assoc, append-nil}

-- `cache.Indexer`: what `ListAll` and `ListAllByNamespace` hand to their function, with their error,
-- and `GetByKey`.
pub record Indexer : Type 0 where
  pub list_all : GoMap → List Obj × Option Error
  pub list_all_by_namespace : String → GoMap → List Obj × Option Error
  pub get_by_key : String → Reply (Option Obj)

-- `loadBalancerList`
pub record LoadBalancerList : Type 0 where
  pub indexer : Indexer

-- `loadBalancerNamespaceLister`
pub record LoadBalancerNamespaceLister : Type 0 where
  pub indexer : Indexer
  pub namespace : String

-- `NewLoadBalancerLister`
abbrev pub new_load_balancer_lister : Indexer → LoadBalancerList
new_load_balancer_lister indexer = record { indexer = indexer }

-- `LoadBalancers`
abbrev pub load_balancers : LoadBalancerList → String → LoadBalancerNamespaceLister
load_balancers s namespace = record { indexer = s.indexer; namespace = namespace }

-- The function that both `List` methods hand to the cache: the load balancers so far and one more
-- object, which panics if it is none.
unfoldable pub append_all : List LoadBalancer → List Obj → Result (List LoadBalancer)
append_all ret [] = ok ret
append_all ret (load_balancer lb ∷ objs) = append_all (ret ++ lb ∷ []) objs
append_all ret (o ∷ objs) = panic

listed : Option Error → Result (List LoadBalancer) → Result (List LoadBalancer × Option Error)
listed e (ok lbs) = ok (lbs, e)
listed e (err x) = err x
listed e panic = panic
listed e blocked = blocked

unfoldable pub list_by : List Obj × Option Error → Result (List LoadBalancer × Option Error)
unfolding append_all listed
list_by (objs, e) = listed e (append_all [] objs)

-- `List` of both listers: what was listed, beside the error.
unfoldable pub list : LoadBalancerList → GoMap → Result (List LoadBalancer × Option Error)
unfolding list_by
list s selector = list_by (s.indexer.list_all selector)

unfoldable pub list_namespaced :
    LoadBalancerNamespaceLister → GoMap → Result (List LoadBalancer × Option Error)
unfolding list_by
list_namespaced s selector = list_by (s.indexer.list_all_by_namespace s.namespace selector)

asserted : Option Obj → Result (Reply LoadBalancer)
asserted none = ok (failed not_found)
asserted (some (load_balancer lb)) = ok (reply lb)
asserted (some o) = panic

got : Reply (Option Obj) → Result (Reply LoadBalancer)
unfolding asserted
got (failed e) = ok (failed e)
got (reply o) = asserted o

-- `Get`
unfoldable pub get : LoadBalancerNamespaceLister → String → Result (Reply LoadBalancer)
unfolding got
get s name = got (s.indexer.get_by_key (s.namespace <> "/" <> name))

append_all-load_balancers :
    (ret lbs : List LoadBalancer) → append_all ret (map load_balancer lbs) ≡ ok (ret ++ lbs)
unfolding append_all
append_all-load_balancers ret [] = rw append-nil
append_all-load_balancers ret (lb ∷ lbs) =
    append_all-load_balancers (ret ++ lb ∷ []) lbs ∙ rw append_assoc

-- A cache of nothing but load balancers is listed in its order, also beside an error.
pub list-load_balancers :
    (indexer : Indexer) (selector : GoMap) (lbs : List LoadBalancer) (e : Option Error)
    → indexer.list_all selector ≡ (map load_balancer lbs, e)
    → list (new_load_balancer_lister indexer) selector ≡ ok (lbs, e)
unfolding list
list-load_balancers indexer selector lbs e holds = rw (holds, append_all-load_balancers [] lbs)
