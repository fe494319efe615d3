-- ===== src/Plugins/Providers.antt =====
-- provider/plugins.go: the register of the providers, which repeats the one of proxy/plugins.go.
use loadbalancer_controller.Common.{String, Bool, Option, List}
use loadbalancer_controller.Common.Effects.{Exec, Result}
use loadbalancer_controller.Api.{LoadBalancer}
use loadbalancer_controller.Cluster.{Call}
use loadbalancer_controller.Plugins

-- `Plugin`
abbrev pub Plugin : Type 0
Plugin = Plugins.Plugin

-- `RegisterPlugin`
abbrev pub register_plugin : Plugin → List Plugin → Result (List Plugin)
register_plugin = Plugins.register_plugin

-- `GetPlugin`
abbrev pub get_plugin : String → List Plugin → Option Plugin
get_plugin = Plugins.get_plugin

-- `IsPlugin`
abbrev pub is_plugin : String → List Plugin → Bool
is_plugin = Plugins.is_plugin

-- `Plugins`
abbrev pub plugins : List Plugin → List String
plugins = Plugins.plugins

-- `Init`
abbrev pub init : {P S : Type 0} → (P → S → P × S) → List P → S → List P × S
init = Plugins.init

-- `Run`
abbrev pub run : List Plugin → Exec Call (Unit {0})
run = Plugins.run

-- `OnSync`
abbrev pub on_sync : List Plugin → LoadBalancer → Exec Call (Unit {0})
on_sync = Plugins.on_sync
