-- ===== src/Workload/Stored.antt =====
-- A deployment that a plugin has generated, as proxy/proxies/nginx/nginx.go and
-- provider/providers/ipvsdr/ipvsdr.go find it again.
use loadbalancer_controller.Common.{String, ◌<>◌, true, ◌≡◌}
use loadbalancer_controller.Api.{Deployment}
use text.Mathlib.Text.{starts_with}
use text.Mathlib.TextPositions.{starts_with-append}
use text.Mathlib.TextLemmas.{append_assoc}

-- A deployment as the API server keeps it: with a namespace, a uid and a version.
abbrev pub stored : String → String → String → Deployment → Deployment
stored namespace uid resource_version d = record d {
  meta = record d.meta { namespace = namespace; uid = uid; resource_version = resource_version };
}

pub starts_with-prefix : (s t u : String) → starts_with (s <> t <> u) (s <> t) ≡ true
starts_with-prefix s t u = rw (← append_assoc s t u) (starts_with-append (s <> t) u)
