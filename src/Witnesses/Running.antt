-- ===== src/Witnesses/Running.antt =====
-- Examples for the start of the program.
use loadbalancer_controller.Common.{
  inr, ℕ, String, true, false, Option, none, some, List, [], ◌∷◌, ◌++◌, map, ◌≡◌, refl, string_eq,
  keep_if, ltb,
}
use loadbalancer_controller.Common.Effects.{blocked, reply}
use loadbalancer_controller.Common.Table.{find, put, IsListing}
use loadbalancer_controller.Config.{Options, new_options}
use loadbalancer_controller.Cluster.{nginx_queue, ipvsdr_queue, run_informer}
use loadbalancer_controller.Witnesses.Samples.{cluster}
use loadbalancer_controller.Client.{Clientset, Config, RestLibrary, new_for_config}
use loadbalancer_controller.Informers.Factory.{
  Factory, new_shared_informer_factory, informer_for, register,
}
use loadbalancer_controller.Informers.Networking.{new_load_balancer_informer}
use loadbalancer_controller.Controller.Setup.{
  Makers, load_balancer_type, node_type, deployment_type, pod_type, controller_handler,
  deployment_handler, pod_handler,
}
use loadbalancer_controller.Nginx.Plugin.{NginxPlugin}
use loadbalancer_controller.Ipvsdr.Plugin.{IpvsdrPlugin}
use loadbalancer_controller.Controller.Start.{run}
use loadbalancer_controller.Controller.Start.Synced.{is_work, create_load_balancers, run-unsynced}
use loadbalancer_controller.Controller.Start.Working.{calls_after, work_calls}
use loadbalancer_controller.Controller.New.Wiring.{
  new_controller, plugin_listers, new_controller_lem,
}
use loadbalancer_controller.Command.{Environment, proxies, providers, controller_of, action}
use loadbalancer_controller.Command.Started.{action-synced}
use loadbalancer_controller.LbUtil.Random.Letters.{}
use loadbalancer_controller.Witnesses.Startup.{server}

-- A factory with one informer, 1, whose cache never syncs.
abbrev stuck : Factory String ℕ ℕ ℕ
stuck = (informer_for "pods" (λ client resync. client) (new_shared_informer_factory 1 2 0)).0

abbrev order : List (String × ℕ)
order = ("pods", 1) ∷ []

order-IsListing : IsListing order stuck.informers
unfolding informer_for register find put
order-IsListing = ((refl, tt), λ key. refl)

stuck-find : find "pods" stuck.informers ≡ some 1
unfolding informer_for register find put
stuck-find = refl

run-unsynced_example :
    keep_if is_work
      (run cluster (λ i. false) true order order 5 (proxies cluster) (providers cluster) stuck []).1
    ≡ []
run-unsynced_example =
    run-unsynced cluster (λ i. false) true stuck order order 5 (proxies cluster) (providers cluster)
      [] order-IsListing order-IsListing (inr ("pods", 1, stuck-find, refl))

-- The configuration that the flags leave, and clients and informers that are numbers.
abbrev opts : Options ℕ (Clientset ℕ)
opts = new_options

abbrev makers : Makers ℕ (Option ℕ) ℕ
makers = record {
  new_node_informer = λ client resync. 11;
  new_pod_informer = λ client resync. 12;
  new_deployment_informer = λ client resync. 13;
  new_shared_index_informer = λ lw resync. 14;
}

abbrev rest_config : Config ℕ ℕ String ℕ
rest_config = record {
  group_version = none;
  api_path = "";
  content_type = "";
  negotiated_serializer = none;
  user_agent = "";
  rate_limiter = none;
  qps = 0;
  burst = 0;
  others = "https://10.0.0.1";
}

abbrev rest : RestLibrary ℕ ℕ String ℕ ℕ
rest = record {
  direct_codec_factory = 1;
  default_kubernetes_user_agent = "controller/v0";
  new_token_bucket_rate_limiter = λ qps burst. qps;
  is_positive = λ qps. ltb 0 qps;
  rest_client_for = λ config. reply 3;
}

abbrev environment : Environment ℕ ℕ String ℕ ℕ ℕ ℕ ℕ
environment = record {
  build_config_from_flags = λ path. reply rest_config;
  kubernetes_for_config = λ config. reply 2;
  rest = rest;
  server = server;
  makers = makers;
  range = λ n m. m;
  wait = λ i. true;
}

abbrev clientset : Clientset ℕ
clientset = record { networking = some (record { client = 3 }) }

clientset-made : new_for_config rest rest_config ≡ reply clientset
unfolding new_for_config
clientset-made = refl

abbrev made : Factory String ℕ (Option ℕ) (Option (Clientset ℕ))
made = (controller_of cluster environment opts 2 clientset).setup.factory

made-IsListing : IsListing made.informers made.informers
unfolding find
made-IsListing =
    rw
      (new_controller_lem server makers
        (record opts.cfg { client = some 2; tpr_client = some clientset })).0
      ((refl, (refl, (refl, (refl, tt)))), λ key. refl)

action-synced_example :
    (runs : List (String × ℕ)) × IsListing runs made.informers
    × (action cluster environment opts [] ≡ (
      blocked,
      calls_after
          (work_calls false 5 (proxies cluster) (providers cluster))
          (map (λ r. run_informer r.0) runs ++ create_load_balancers ∷ []),
    ))
action-synced_example =
    action-synced cluster environment opts rest_config 2 clientset [] refl refl clientset-made
      (λ n. made-IsListing) (λ i. refl) refl

new_controller_lem_example :
    let c = new_controller server makers opts.cfg in
    (c.setup.factory.informers
      ≡ (load_balancer_type, 14) ∷ (node_type, 11) ∷ (deployment_type, 13) ∷ (pod_type, 12) ∷ [])
    × (c.setup.handlers
        ≡ (14, controller_handler)
          ∷ (13, deployment_handler nginx_queue)
          ∷ (12, pod_handler nginx_queue)
          ∷ (13, deployment_handler ipvsdr_queue)
          ∷ (12, pod_handler ipvsdr_queue)
          ∷ [])
    × (c.lb_lister ≡ 14)
    × (c.node_lister ≡ 11)
    × ((p : NginxPlugin ℕ) × (c.proxies ≡ p ∷ [])
        × (p.initialized ≡ true)
        × (p.listers ≡ some (plugin_listers server makers opts.cfg)))
    × ((p : IpvsdrPlugin ℕ) × (c.providers ≡ p ∷ [])
        × (p.initialized ≡ true)
        × (p.listers ≡ some (plugin_listers server makers opts.cfg)))
unfolding new_load_balancer_informer
new_controller_lem_example = new_controller_lem server makers opts.cfg
