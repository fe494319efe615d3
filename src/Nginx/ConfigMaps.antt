-- ===== src/Nginx/ConfigMaps.antt =====
-- proxy/proxies/nginx/config.go
pub mod Merge
use loadbalancer_controller.Common.{String, ◌<>◌, none, some}
use loadbalancer_controller.Common.{[], ◌∷◌, string_eq, nat_eq}
use loadbalancer_controller.Common.{if◌then◌else◌}
use loadbalancer_controller.Common.Effects.{is_not_found, Reply, reply, failed}
use loadbalancer_controller.Common.Effects.{Exec, pure, fail, call, attempt}
use loadbalancer_controller.Common.Effects.{◌>>=◌, ◌>>◌}
use loadbalancer_controller.Common.GoMap.{GoMap, Entries, entries, insert, deep_equal}
use loadbalancer_controller.Api.{LoadBalancer, ConfigMap}
use loadbalancer_controller.Cluster.{
  Cluster, Call, get_config_map, create_config_map, update_config_map,
}
use loadbalancer_controller.Nginx.Selector.{selector}

-- `configMapName`, `tcpConfigMapName` and `udpConfigMapName`
abbrev pub config_map_name : String → String
config_map_name name = name <> "-proxy-nginx-config"

abbrev pub tcp_config_map_name : String → String
tcp_config_map_name name = name <> "-proxy-nginx-tcp"

abbrev pub udp_config_map_name : String → String
udp_config_map_name name = name <> "-proxy-nginx-udp"

-- `defaultConfig`
abbrev pub default_config : Entries
default_config =
    ("enable-sticky-sessions", "true")
    ∷ ("ssl-redirect", "false")
    ∷ ("force-ssl-redirect", "false")
    ∷ ("enable-vts-status", "true")
    ∷ []

-- One loop of `merge`: every entry is written.
unfoldable pub write_all : Entries → Entries → Entries
write_all [] m = m
write_all ((k, v) ∷ es) m = write_all es (insert k v m)

-- `merge`, whose result is never nil.
unfoldable pub merge : GoMap → GoMap → GoMap
unfolding write_all
merge dst src = some (write_all (entries src) (write_all (entries dst) []))

module _ (C : Cluster) (namespace : String) where
  abbrev send : Call → Exec Call (Unit {0})
  send c = call c (λ h. C.accepted h c)

  -- The end of `ensureConfigMap`, once there is a config map.
  unfoldable pub ensure_contents : GoMap → ConfigMap → Exec Call (Unit {0})
  ensure_contents none cm h = pure tt h
  ensure_contents (some m) cm h =
      (if deep_equal cm.contents (some m)
          then pure tt
          else send (update_config_map namespace (record cm { contents = some m })))
        h

  -- What follows the `Get`.
  unfoldable pub ensure_fetched : String → GoMap → GoMap → Reply ConfigMap → Exec Call (Unit {0})
  unfolding ensure_contents
  ensure_fetched name labels contents (reply cm) = ensure_contents contents cm
  ensure_fetched name labels contents (failed e) =
      let cm : ConfigMap = record { name = name; labels = labels; contents = contents } in
      if is_not_found e
      then (send (create_config_map namespace cm) >> ensure_contents contents cm)
      else fail e

  -- `ensureConfigMap`
  unfoldable pub ensure_config_map : String → GoMap → GoMap → Exec Call (Unit {0})
  unfolding ensure_fetched
  ensure_config_map name labels contents =
      attempt (call (get_config_map namespace name) (λ h. C.live_config_map h namespace name))
      >>= ensure_fetched name labels contents

-- `ensureConfigMaps`
unfoldable pub ensure_config_maps : Cluster → LoadBalancer → Exec Call (Unit {0})
unfolding ensure_config_map merge
ensure_config_maps C lb =
    ensure_config_map C lb.namespace (config_map_name lb.name) (selector lb)
      (merge (some default_config) lb.spec.proxy.config)
    >> ensure_config_map C lb.namespace (tcp_config_map_name lb.name) (selector lb) none
    >> ensure_config_map C lb.namespace (udp_config_map_name lb.name) (selector lb) none
