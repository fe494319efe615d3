-- ===== src/Nginx/Plugin.antt =====
-- NewNginx, Init and Run of proxy/proxies/nginx/nginx.go.
use loadbalancer_controller.Common.{Bool, true, false, Option, none, some}
use loadbalancer_controller.Common.Effects.{
  Reply, reply, failed, Exec, pure, crash, attempt, ◌>>=◌, ◌>>◌,
}
use loadbalancer_controller.Cluster.{Cluster, Call, nginx_queue, await}
use loadbalancer_controller.Config.{Configuration}
use loadbalancer_controller.Client.{Clientset}
use loadbalancer_controller.Client.LoadBalancers.{Server}
use loadbalancer_controller.Controller.Setup.{Makers, Setup, Listers, attach}
use loadbalancer_controller.Helper
use loadbalancer_controller.Common.{List}
use loadbalancer_controller.Common.Effects.{Result}
use loadbalancer_controller.Plugins.{Plugin, register_plugin}
use loadbalancer_controller.Nginx.Selector.{proxy_name, on_sync}
use loadbalancer_controller.Helper.{shut_down_helper}
use loadbalancer_controller.Nginx.Selector.{Nginx, nginx_helper}
use loadbalancer_controller.Nginx.Backend.{ensure_default_http_backend}

-- `nginx`: whether it is initialized, what the configuration sets, and its listers.
pub record NginxPlugin (I : Type 0) : Type 0 where
  pub initialized : Bool
  pub settings : Nginx
  pub listers : Option (Listers I)

-- `NewNginx`
abbrev pub new_nginx : {I : Type 0} → NginxPlugin I
new_nginx = record {
  initialized = false;
  settings = record {
    image = "";
    sidecar = "";
    default_http_backend = "";
    default_ssl_certificate = "";
  };
  listers = none;
}

module _ {I K N R W : Type 0} (V : Server R W) (M : Makers I K W)
    (cfg : Configuration N (Clientset R)) where
  init_unless : Bool → NginxPlugin I → Setup I K R → NginxPlugin I × Setup I K R
  unfolding attach
  init_unless true p s = (p, s)
  init_unless false p s =
      let (s', listers) = attach V M nginx_queue s in
      (
        record {
          initialized = true;
          settings = record {
            image = cfg.proxies.nginx.image;
            sidecar = cfg.proxies.sidecar.image;
            default_http_backend = cfg.proxies.default_http_backend;
            default_ssl_certificate = cfg.proxies.default_ssl_certificate;
          };
          listers = some listers;
        },
        s',
      )

  -- `Init`
  unfoldable pub init : NginxPlugin I → Setup I K R → NginxPlugin I × Setup I K R
  unfolding init_unless
  init p s = init_unless p.initialized p s

work_if : Bool → Reply (Unit {0}) → Exec Call (Unit {0})
unfolding Helper.run
work_if stops (failed e) = pure tt
work_if stops (reply u) = Helper.run 1 nginx_helper >> await stops >> shut_down_helper nginx_helper

-- `stops` tells whether the stop ever comes.
module _ {I : Type 0} (C : Cluster) (stops : Bool) where
  run_if : Bool → NginxPlugin I → Exec Call (Unit {0})
  unfolding work_if ensure_default_http_backend
  run_if false p = crash
  run_if true p = attempt (ensure_default_http_backend C p.settings) >>= work_if stops

  -- `Run`; it panics if the plugin is not initialized.
  unfoldable pub run : NginxPlugin I → Exec Call (Unit {0})
  unfolding run_if
  run p = run_if p.initialized p

-- The package's `init`: the plugin is registered by its name.
unfoldable pub register : Cluster → List Plugin → Result (List Plugin)
unfolding register_plugin on_sync
register C = register_plugin (record { name = proxy_name; on_sync = on_sync C })
