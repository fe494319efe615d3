-- ===== src/Controller/Clone.antt =====
-- clone of controller/lb_controller.go
use loadbalancer_controller.Common.{Option}
use loadbalancer_controller.Common.Effects.{Reply}
use loadbalancer_controller.Api.{LoadBalancer}
use loadbalancer_controller.Cluster.{Library, load_balancer}
use loadbalancer_controller.LbUtil.Copies.{as_load_balancer}

-- `clone`; a nil pointer may come without an error.
abbrev pub clone : Library → LoadBalancer → Reply (Option LoadBalancer)
clone L lb = as_load_balancer (L.deep_copy (load_balancer lb))
