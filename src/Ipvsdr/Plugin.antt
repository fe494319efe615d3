-- ===== src/Ipvsdr/Plugin.antt =====
-- NewIpvsdr, Init and Run of provider/providers/ipvsdr/ipvsdr.go.
use loadbalancer_controller.Common.{Bool, true, false, Option, none, some}
use loadbalancer_controller.Common.Effects.{Exec, crash, ◌>>◌}
use loadbalancer_controller.Cluster.{Cluster, Call, ipvsdr_queue, await}
use loadbalancer_controller.Config.{Configuration}
use loadbalancer_controller.Client.{Clientset}
use loadbalancer_controller.Client.LoadBalancers.{Server}
use loadbalancer_controller.Controller.Setup.{Makers, Setup, Listers, attach}
use loadbalancer_controller.Helper
use loadbalancer_controller.Common.{List}
use loadbalancer_controller.Common.Effects.{Result}
use loadbalancer_controller.Plugins
use loadbalancer_controller.Plugins.Providers.{Plugin, register_plugin}
use loadbalancer_controller.Ipvsdr.Selector.{provider_name, on_sync}
use loadbalancer_controller.Helper.{shut_down_helper}
use loadbalancer_controller.Ipvsdr.Selector.{Ipvsdr, ipvsdr_helper}

-- `ipvsdr`: whether it is initialized, what the configuration sets, and its listers.
pub record IpvsdrPlugin (I : Type 0) : Type 0 where
  pub initialized : Bool
  pub settings : Ipvsdr
  pub listers : Option (Listers I)

-- `NewIpvsdr`
abbrev pub new_ipvsdr : {I : Type 0} → IpvsdrPlugin I
new_ipvsdr = record { initialized = false; settings = record { image = "" }; listers = none }

module _ {I K N R W : Type 0} (V : Server R W) (M : Makers I K W)
    (cfg : Configuration N (Clientset R)) where
  init_unless : Bool → IpvsdrPlugin I → Setup I K R → IpvsdrPlugin I × Setup I K R
  unfolding attach
  init_unless true p s = (p, s)
  init_unless false p s =
      let (s', listers) = attach V M ipvsdr_queue s in
      (
        record {
          initialized = true;
          settings = record { image = cfg.providers.ipvsdr.image };
          listers = some listers;
        },
        s',
      )

  -- `Init`
  unfoldable pub init : IpvsdrPlugin I → Setup I K R → IpvsdrPlugin I × Setup I K R
  unfolding init_unless
  init p s = init_unless p.initialized p s

run_if : Bool → Bool → Exec Call (Unit {0})
unfolding Helper.run
run_if stops false = crash
run_if stops true = Helper.run 1 ipvsdr_helper >> await stops >> shut_down_helper ipvsdr_helper

-- `stops` tells whether the stop ever comes.
module _ {I : Type 0} (stops : Bool) where
  -- `Run`; it panics if the plugin is not initialized.
  unfoldable pub run : IpvsdrPlugin I → Exec Call (Unit {0})
  unfolding run_if
  run p = run_if stops p.initialized

-- The package's `init`: the plugin is registered by its name.
unfoldable pub register : Cluster → List Plugin → Result (List Plugin)
unfolding Plugins.register_plugin on_sync
register C = register_plugin (record { name = provider_name; on_sync = on_sync C })
