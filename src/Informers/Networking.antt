-- ===== src/Informers/Networking.antt =====
-- pkg/informers/networking/interface.go, networking/v1alpha1/interface.go and
-- networking/v1alpha1/loadbalancer.go
use loadbalancer_controller.Common.{ℕ, String, Option, List, Eq}
use loadbalancer_controller.Common.Effects.{Exec}
use loadbalancer_controller.Api.{LoadBalancer}
use loadbalancer_controller.Client.{Clientset, networking_v1alpha1}
use loadbalancer_controller.Client.LoadBalancers.{
  ListOptions, Request, Server, load_balancers, list, watch,
}
use loadbalancer_controller.Informers.Factory.{Factory, tpr_informer_for}

-- `cache.ListWatch`, for the watches W.
pub record ListWatch (W : Type 0) : Type 0 where
  pub list_func : ListOptions → Exec Request (List LoadBalancer)
  pub watch_func : ListOptions → Exec Request W

-- `v1.NamespaceAll`
abbrev pub namespace_all : String
namespace_all = ""

module _ {R W : Type 0} (V : Server R W) where
  -- The `ListWatch` of `newLoadBalancerInformer`
  unfoldable pub list_watch : Option (Clientset R) → ListWatch W
  list_watch client = record {
    list_func = λ opts. list V (load_balancers (networking_v1alpha1 client) namespace_all) opts;
    watch_func = λ opts. watch V (load_balancers (networking_v1alpha1 client) namespace_all) opts;
  }

module _ {R W I : Type 0} (V : Server R W) where
  -- `newLoadBalancerInformer`; `NewSharedIndexInformer` makes an informer for load balancers, with an
  -- index of their namespaces.
  unfoldable pub new_load_balancer_informer : (ListWatch W → ℕ → I) → Option (Clientset R) → ℕ → I
  unfolding list_watch
  new_load_balancer_informer new_shared_index_informer client resync_period =
      new_shared_index_informer (list_watch V client) resync_period

module _ {T K R W I : Type 0} ⦃c : Eq T⦄ (V : Server R W)
    (new_shared_index_informer : ListWatch W → ℕ → I) (load_balancer_type : T) where
  -- `Networking().V1alpha1().LoadBalancer().Informer()` of a factory; `Lister` asks for the same.
  unfoldable pub load_balancer_informer :
      Factory T I K (Option (Clientset R)) → Factory T I K (Option (Clientset R)) × I
  unfolding tpr_informer_for new_load_balancer_informer
  load_balancer_informer =
      tpr_informer_for load_balancer_type (new_load_balancer_informer V new_shared_index_informer)
