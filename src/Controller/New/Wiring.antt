-- ===== src/Controller/New/Wiring.antt =====
-- The informers that NewLoadBalancerController of controller/lb_controller.go leads to.
use loadbalancer_controller.Common.{true, Option, some, [], ◌∷◌, ◌≡◌, refl, string_eq}
use loadbalancer_controller.Cluster.{nginx_queue, ipvsdr_queue}
use loadbalancer_controller.Config.{Configuration}
use loadbalancer_controller.Client.{Clientset}
use loadbalancer_controller.Client.LoadBalancers.{Server}
use loadbalancer_controller.Common.Table.{find, put}
use loadbalancer_controller.Informers.Networking.{new_load_balancer_informer}
use loadbalancer_controller.Controller.Setup.{
  Makers, Listers, controller_handler, deployment_handler, pod_handler, load_balancer_type,
  node_type, pod_type, deployment_type, attach,
}
use loadbalancer_controller.Nginx.Plugin.{NginxPlugin, new_nginx}
use loadbalancer_controller.Ipvsdr.Plugin.{IpvsdrPlugin, new_ipvsdr}
use loadbalancer_controller.Controller.New.{Controller, new_load_balancer_controller}

module _ {I N R W : Type 0} (V : Server R W) (M : Makers I (Option N) W)
    (cfg : Configuration N (Clientset R)) where
  abbrev pub lb_informer : I
  lb_informer = new_load_balancer_informer V M.new_shared_index_informer cfg.tpr_client 0

  abbrev pub node_informer : I
  node_informer = M.new_node_informer cfg.client 0

  abbrev pub deployment_informer : I
  deployment_informer = M.new_deployment_informer cfg.client 0

  abbrev pub pod_informer : I
  pod_informer = M.new_pod_informer cfg.client 0

  abbrev pub plugin_listers : Listers I
  plugin_listers = record {
    lb_lister = lb_informer;
    d_lister = deployment_informer;
    pod_lister = pod_informer;
  }

  -- The new controller.
  abbrev pub new_controller : Controller I N R
  new_controller = new_load_balancer_controller V M cfg (new_nginx ∷ []) (new_ipvsdr ∷ [])

  -- With the nginx proxy and the ipvsdr provider, the new controller has asked for one informer of
  -- the load balancers, the nodes, the deployments and the pods each. Its own and both plugins'
  -- listers read these. The events of the load balancers go to the controller, and those of the
  -- deployments and pods to both plugins.
  pub new_controller_lem :
      (new_controller.setup.factory.informers
        ≡ (load_balancer_type, lb_informer)
          ∷ (node_type, node_informer)
          ∷ (deployment_type, deployment_informer)
          ∷ (pod_type, pod_informer)
          ∷ [])
      × (new_controller.setup.handlers
          ≡ (lb_informer, controller_handler)
            ∷ (deployment_informer, deployment_handler nginx_queue)
            ∷ (pod_informer, pod_handler nginx_queue)
            ∷ (deployment_informer, deployment_handler ipvsdr_queue)
            ∷ (pod_informer, pod_handler ipvsdr_queue)
            ∷ [])
      × (new_controller.lb_lister ≡ lb_informer)
      × (new_controller.node_lister ≡ node_informer)
      × ((p : NginxPlugin I) × (new_controller.proxies ≡ p ∷ [])
          × (p.initialized ≡ true)
          × (p.listers ≡ some plugin_listers))
      × ((p : IpvsdrPlugin I) × (new_controller.providers ≡ p ∷ [])
          × (p.initialized ≡ true)
          × (p.listers ≡ some plugin_listers))
  unfolding new_load_balancer_controller attach find put
  new_controller_lem = (refl, refl, refl, refl, (_, refl, refl, refl), (_, refl, refl, refl))

  -- None of them has been started.
  pub new_controller-fresh : new_controller.setup.factory.started_informers ≡ []
  unfolding new_load_balancer_controller attach find put
  new_controller-fresh = refl
