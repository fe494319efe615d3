-- ===== src/Controller/New.antt =====
-- NewLoadBalancerController of controller/lb_controller.go.
pub mod Wiring
use loadbalancer_controller.Common.{String, Option, List, [], ◌∷◌, string_eq}
use loadbalancer_controller.Config.{Configuration}
use loadbalancer_controller.Client.{Clientset}
use loadbalancer_controller.Client.LoadBalancers.{Server}
use loadbalancer_controller.Informers.Factory.{new_shared_informer_factory}
use loadbalancer_controller.Controller.Setup.{
  Makers, Setup, controller_handler, add_event_handler, load_balancers, nodes,
}
use loadbalancer_controller.Plugins
use loadbalancer_controller.Plugins.Providers
use loadbalancer_controller.Nginx.Plugin as NginxPlugins
use loadbalancer_controller.Nginx.Plugin.{NginxPlugin}
use loadbalancer_controller.Ipvsdr.Plugin as IpvsdrPlugins
use loadbalancer_controller.Ipvsdr.Plugin.{IpvsdrPlugin}

-- `LoadBalancerController`: its listers, beside the plugins and the informers that it has set up.
pub record Controller (I N R : Type 0) : Type 0 where
  pub lb_lister : I
  pub node_lister : I
  pub setup : Setup I (Option N) R
  pub proxies : List (NginxPlugin I)
  pub providers : List (IpvsdrPlugin I)

module _ {I N R W : Type 0} (V : Server R W) (M : Makers I (Option N) W) where
  -- `NewLoadBalancerController`, for proxies and providers of the two kinds that are registered.
  unfoldable pub new_load_balancer_controller :
      Configuration N (Clientset R)
      → List (NginxPlugin I)
      → List (IpvsdrPlugin I)
      → Controller I N R
  unfolding Plugins.init NginxPlugins.init IpvsdrPlugins.init
  new_load_balancer_controller cfg proxies providers =
      let s0 : Setup I (Option N) R = record {
        factory = new_shared_informer_factory cfg.client cfg.tpr_client 0;
        handlers = [];
      } in
      let (s1, i) = load_balancers V M s0 in
      let (s2, lb_lister) = load_balancers V M (add_event_handler i controller_handler s1) in
      let (s3, node_lister) = nodes V M s2 in
      let (proxies', s4) = Plugins.init (NginxPlugins.init V M cfg) proxies s3 in
      let (providers', s5) = Providers.init (IpvsdrPlugins.init V M cfg) providers s4 in
      record {
        lb_lister = lb_lister;
        node_lister = node_lister;
        setup = s5;
        proxies = proxies';
        providers = providers';
      }
