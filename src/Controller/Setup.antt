-- ===== src/Controller/Setup.antt =====
-- The informers and event handlers that controller/lb_controller.go, proxy/proxies/nginx/nginx.go and
-- provider/providers/ipvsdr/ipvsdr.go set up before anything runs.
use loadbalancer_controller.Common.{ℕ, String, List, [], ◌∷◌, ◌++◌, Option, string_eq}
use loadbalancer_controller.Client.{Clientset}
use loadbalancer_controller.Client.LoadBalancers.{Server}
use loadbalancer_controller.Cluster.{Queue}
use loadbalancer_controller.Informers.Factory.{Factory, informer_for}
use loadbalancer_controller.Informers.Networking.{ListWatch, load_balancer_informer}

-- The types of the objects.
abbrev pub load_balancer_type : String
load_balancer_type =
    "github.com/caicloud/loadbalancer-controller/pkg/apis/networking/v1alpha1.LoadBalancer"

abbrev pub node_type : String
node_type = "k8s.io/client-go/pkg/api/v1.Node"

abbrev pub pod_type : String
pod_type = "k8s.io/client-go/pkg/api/v1.Pod"

abbrev pub deployment_type : String
deployment_type = "k8s.io/client-go/pkg/apis/extensions/v1beta1.Deployment"

-- The event handlers: the controller's, and those of a plugin, by its queue.
pub data Handler : Type 0 where
  controller_handler : Handler
  deployment_handler pod_handler : Queue → Handler

-- How client-go makes informers I from its clients K, and from a `ListWatch`.
pub record Makers (I K W : Type 0) : Type 0 where
  pub new_node_informer : K → ℕ → I
  pub new_pod_informer : K → ℕ → I
  pub new_deployment_informer : K → ℕ → I
  pub new_shared_index_informer : ListWatch W → ℕ → I

-- The factory that all share, and the handlers that its informers have, in the order of their
-- addition.
pub record Setup (I K R : Type 0) : Type 0 where
  pub factory : Factory String I K (Option (Clientset R))
  pub handlers : List (I × Handler)

module _ {I K R : Type 0} where
  -- `AddEventHandler`
  abbrev pub add_event_handler : I → Handler → Setup I K R → Setup I K R
  add_event_handler i handler s = record s { handlers = s.handlers ++ ((i, handler) ∷ []) }

  -- `Informer` or `Lister` of an accessor of the factory; both ask for the informer.
  abbrev pub ask :
      (Factory String I K (Option (Clientset R)) → Factory String I K (Option (Clientset R)) × I)
      → Setup I K R
      → Setup I K R × I
  ask accessor s = let (factory, i) = accessor s.factory in (record s { factory = factory }, i)

-- The listers of a plugin.
pub record Listers (I : Type 0) : Type 0 where
  pub lb_lister : I
  pub d_lister : I
  pub pod_lister : I

module _ {I K R W : Type 0} (V : Server R W) (M : Makers I K W) where
  abbrev pub load_balancers : Setup I K R → Setup I K R × I
  load_balancers = ask (load_balancer_informer V M.new_shared_index_informer load_balancer_type)

  abbrev pub nodes : Setup I K R → Setup I K R × I
  nodes = ask (informer_for node_type M.new_node_informer)

  abbrev pub pods : Setup I K R → Setup I K R × I
  pods = ask (informer_for pod_type M.new_pod_informer)

  abbrev pub deployments : Setup I K R → Setup I K R × I
  deployments = ask (informer_for deployment_type M.new_deployment_informer)

  -- What `Init` of both plugins does: the listers, and the handlers that fill the plugin's queue.
  unfoldable pub attach : Queue → Setup I K R → Setup I K R × Listers I
  unfolding informer_for load_balancer_informer
  attach queue s =
      let (s1, lb_lister) = load_balancers s in
      let (s2, d_lister) = deployments s1 in
      let (s3, pod_lister) = pods s2 in
      let (s4, d) = deployments s3 in
      let (s5, pod) = pods (add_event_handler d (deployment_handler queue) s4) in
      (
        add_event_handler pod (pod_handler queue) s5,
        record { lb_lister = lb_lister; d_lister = d_lister; pod_lister = pod_lister },
      )
