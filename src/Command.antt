-- ===== src/Command.antt =====
-- cmd/controller/main.go, and the flags of cmd/controller/options.go
pub mod Started
use loadbalancer_controller.Common.{
  ℕ, String, ◌<>◌, Bool, false, Option, none, some, List, [], ◌∷◌, ◌++◌, map, string_eq,
}
use loadbalancer_controller.Common.Effects.{
  Error, Reply, reply, failed, Result, ok, err, panic, blocked, Exec, pure, lift, ◌>>=◌,
}
use loadbalancer_controller.Cluster.{Cluster, Call}
use loadbalancer_controller.Config.{
  Configuration, Options, Flag, Destination, text, switch, generic, configuration_flags,
}
use loadbalancer_controller.Client.{Clientset, Config, RestLibrary, new_for_config}
use loadbalancer_controller.Client.LoadBalancers.{Server}
use loadbalancer_controller.Controller.Setup.{Makers, Setup}
use loadbalancer_controller.Controller.New.{Controller, new_load_balancer_controller}
use loadbalancer_controller.Controller.Start as Starting
use loadbalancer_controller.Plugins.{Plugin}
use loadbalancer_controller.Nginx.Plugin.{new_nginx}
use loadbalancer_controller.Ipvsdr.Plugin.{new_ipvsdr}
use loadbalancer_controller.Nginx.Selector as NginxSelector
use loadbalancer_controller.Ipvsdr.Selector as IpvsdrSelector

-- What main.go calls: `clientcmd.BuildConfigFromFlags("", path)`, `kubernetes.NewForConfig`, the
-- informers, the order of the n-th `range` over the informers, and the wait for a cache.
pub record Environment (S L D F R I N W : Type 0) : Type 0 where
  pub build_config_from_flags : String → Reply (Config S L D F)
  pub kubernetes_for_config : Config S L D F → Reply N
  pub rest : RestLibrary S L D F R
  pub server : Server R W
  pub makers : Makers I (Option N) W
  pub range : ℕ → List (String × I) → List (String × I)
  pub wait : I → Bool

-- The registered proxies and providers.
abbrev pub proxies : Cluster → List Plugin
proxies C = record { name = "nginx"; on_sync = NginxSelector.on_sync C } ∷ []

abbrev pub providers : Cluster → List Plugin
providers C = record { name = "ipvsdr"; on_sync = IpvsdrSelector.on_sync C } ∷ []

module _ {S L D F R I N W : Type 0} (C : Cluster) (E : Environment S L D F R I N W) where
  -- The new controller, for the clients.
  abbrev pub controller_of : Options N (Clientset R) → N → Clientset R → Controller I N R
  controller_of opts client tpr_client =
      new_load_balancer_controller E.server E.makers
        (record opts.cfg { client = some client; tpr_client = some tpr_client }) (new_nginx ∷ [])
        (new_ipvsdr ∷ [])

  -- `controller.Run(5, stopCh)`, where `stopCh` is `wait.NeverStop`
  abbrev pub run_new : Controller I N R → Exec Call (Unit {0})
  run_new c =
      Starting.run C E.wait false (E.range 0 c.setup.factory.informers)
        (E.range 1 c.setup.factory.informers) 5 (proxies C) (providers C) c.setup.factory

  -- `RunController`; `log.Fatal` only logs.
  unfoldable pub run_controller : Options N (Clientset R) → Exec Call (Unit {0})
  unfolding Starting.run new_load_balancer_controller new_for_config
  run_controller opts = lift (E.build_config_from_flags opts.kubeconfig) >>= λ config.
      lift (E.kubernetes_for_config config) >>= λ client.
      lift (new_for_config E.rest config) >>= λ tpr_client.
      run_new (controller_of opts client tpr_client)

module _ {N Q : Type 0} where
  -- The flags of `AddFlags` of the options; `log-force-color` sets a variable of the logger.
  abbrev pub options_flags : List (Flag (Options N Q × Bool))
  options_flags =
      record {
        name = "kubeconfig";
        env_var = "";
        destination = text "" (λ v s. (record s.0 { kubeconfig = v }, s.1));
      }
      ∷ record {
        name = "debug";
        env_var = "";
        destination = switch (λ b s. (record s.0 { debug = b }, s.1));
      }
      ∷ record { name = "log-force-color"; env_var = ""; destination = switch (λ b s. (s.0, b)) }
      ∷ []

-- How the application's action ends, if it does: normally, with the exit code 1, or with the panic.
abbrev pub exit_code : Result (Unit {0}) → Result ℕ
exit_code (ok u) = ok 0
exit_code (err e) = ok 1
exit_code panic = panic
exit_code blocked = blocked

module _ {S L D F R I N W : Type 0} (C : Cluster) (E : Environment S L D F R I N W) where
  -- The action of `main`
  unfoldable pub action : Options N (Clientset R) → List Call → Result ℕ × List Call
  unfolding run_controller
  action opts h = let (r, h') = run_controller C E opts h in (exit_code r, h')
