-- ===== src/Plugins.antt =====
-- proxy/plugins.go: the registered plugins, in the order of the iteration.
pub mod Providers
use loadbalancer_controller.Common.{String, Bool, Option, none, some, List, [], ◌∷◌, ◌==◌, ◌||◌}
use loadbalancer_controller.Common.{string_eq, if◌then◌else◌, map}
use loadbalancer_controller.Common.Effects.{Exec, Result, ok, panic, post, for_each}
use loadbalancer_controller.Api.{LoadBalancer}
use loadbalancer_controller.Cluster.{Call, run_plugin}

-- `Plugin`, the part that the controller calls at each sync.
pub record Plugin : Type 0 where
  pub name : String
  pub on_sync : LoadBalancer → Exec Call (Unit {0})

-- `GetPlugin`
unfoldable pub get_plugin : String → List Plugin → Option Plugin
get_plugin name [] = none
get_plugin name (p ∷ ps) = if p.name == name then some p else get_plugin name ps

-- `IsPlugin`
unfoldable pub is_plugin : String → List Plugin → Bool
is_plugin name [] = Bool.false
is_plugin name (p ∷ ps) = p.name == name || is_plugin name ps

-- `Plugins`
unfoldable pub plugins : List Plugin → List String
plugins = map (λ p. p.name)

-- `OnSync`
unfoldable pub on_sync : List Plugin → LoadBalancer → Exec Call (Unit {0})
unfolding for_each
on_sync ps lb = for_each ps (λ p. p.on_sync lb)

-- `Run`: the `Run` of each plugin, in a goroutine.
unfoldable pub run : List Plugin → Exec Call (Unit {0})
unfolding for_each
run ps = for_each ps (λ p. post (run_plugin p.name))

-- `Init`: the `Init` of each plugin, which changes the plugin, of type P, and the informers, of type
-- S, that all of them share.
unfoldable pub init : {P S : Type 0} → (P → S → P × S) → List P → S → List P × S
init init_one [] s = ([], s)
init init_one (p ∷ ps) s =
    let (p', s') = init_one p s in let (ps', s'') = init init_one ps s' in (p' ∷ ps', s'')

-- `RegisterPlugin`: a name that is taken panics.
unfoldable pub register_plugin : Plugin → List Plugin → Result (List Plugin)
unfolding is_plugin
register_plugin p ps = if is_plugin p.name ps then panic else ok (p ∷ ps)
