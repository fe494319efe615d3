-- ===== src/Handlers/Pods/Owner.antt =====
-- The load balancer that EventHandlerForSyncStatusWithPod of pkg/util/lb/event_handler.go finds for
-- the pods of the proxies.
use loadbalancer_controller.Common.{
  String, [], ◌∷◌, ◌++◌, arith, string_eq, true, none, some, ◌≡◌, refl, ◌⊎◌, inl, inr, Bool-cases,
  if◌then◌else◌, List,
}
use loadbalancer_controller.Common.GoMap.{Entries, GoMap, get, lookup}
use loadbalancer_controller.Api.{LoadBalancer, Pod, label_key_created_by, created_by}
use loadbalancer_controller.Cluster.{Cluster, Library, Call}
use loadbalancer_controller.Listers.{get_lb_cached}
use loadbalancer_controller.LbUtil.Names.{no_dot, split-created_by}
use loadbalancer_controller.Handlers.Pods.{fetched, get_loadbalancer_for_pod}
use loadbalancer_controller.Nginx.Selector.{selector}
use loadbalancer_controller.Ipvsdr.Selector.{selector as ipvsdr_selector}

-- The labels have all those that are required, and perhaps others.
abbrev pub HasLabels : GoMap → GoMap → Type 0
HasLabels required labels =
    (key value : String) → get key required ≡ some value → get key labels ≡ some value

-- Labels that are added do not hide the ones before them.
pub HasLabels-append : (m added : Entries) → HasLabels (some m) (some (m ++ added))
unfolding lookup
HasLabels-append [] added key value e = cc e
HasLabels-append ((first, x) ∷ m) added key value e =
    ground (arith, HasLabels-append m added key value)

-- The pod has the labels that the nginx proxy or the ipvsdr provider gives to those of `lb`.
abbrev pub IsPodOf : LoadBalancer → Pod → Type 0
IsPodOf lb p = HasLabels (selector lb) p.labels ⊎ HasLabels (ipvsdr_selector lb) p.labels

created_by-label :
    (lb : LoadBalancer) (p : Pod)
    → IsPodOf lb p
    → get label_key_created_by p.labels ≡ some (created_by lb.namespace lb.name)
unfolding lookup
created_by-label lb p (inl own) = own label_key_created_by _ refl
created_by-label lb p (inr own) = own label_key_created_by _ refl

-- For a pod that has the labels that the nginx proxy or the ipvsdr provider gives to the pods of a load
-- balancer, and perhaps others, whose namespace has no dot, the handler finds what the lister has under the namespace
-- and name of the load balancer, and nothing if its name has a dot.
pub get_loadbalancer_for_pod-selector :
    (C : Cluster) (L : Library) (lb : LoadBalancer) (p : Pod) (h : List Call)
    → no_dot lb.namespace ≡ true
    → IsPodOf lb p
    → get_loadbalancer_for_pod C L p h
      ≡ (if no_dot lb.name then fetched (get_lb_cached C L h lb.namespace lb.name) else none)
unfolding get_loadbalancer_for_pod
get_loadbalancer_for_pod-selector C L lb p h plain own = elim (Bool-cases (no_dot lb.name)) [
  | inl dotless ↦
      rw (created_by-label lb p own, split-created_by L.quote lb.namespace lb.name plain, dotless)
        refl
  | inr dotted ↦
      rw (created_by-label lb p own, split-created_by L.quote lb.namespace lb.name plain, dotted)
        refl
]
