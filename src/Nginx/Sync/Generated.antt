-- ===== src/Nginx/Sync/Generated.antt =====
-- ensureDeployment and sync of proxy/proxies/nginx/nginx.go on what GenerateDeployment has made.
use loadbalancer_controller.Common.{
  ℕ, String, ◌<>◌, true, false, Option, none, some, if◌then◌else◌, ◌≡◌, refl, ◌∙◌, List, [], ◌∷◌,
  string_eq, nat_eq,
}
use loadbalancer_controller.Common.Effects.{ok}
use loadbalancer_controller.Common.GoMap.{insert, entries, deep_equal_refl}
use loadbalancer_controller.Api.{
  LoadBalancer, Deployment, Container, NodeAffinity, node_affinity_eq,
}
use loadbalancer_controller.Cluster.{Cluster, Library, HasDeepCopy, Call}
use loadbalancer_controller.Nginx.Selector.{Nginx, proxy_name_suffix, selector}
use loadbalancer_controller.Nginx.Generate.{
  generate_deployment, node_affinity, ingress_container, sidecar_container,
}
use loadbalancer_controller.Nginx.ConfigMaps.{write_all}
use loadbalancer_controller.Nginx.Ensure.{corrected, is_changed, ensure_deployment}
use loadbalancer_controller.Nginx.Ensure.Again.{ensure_deployment_lem, containers_changed-own}
use loadbalancer_controller.Workload.Stored.{stored, starts_with-prefix}
use loadbalancer_controller.Workload.Loop.{sync_loop, sync_one, update_ensured, is_generated}
use loadbalancer_controller.LbUtil.Random.{rand_string_bytes_rmndr}
use loadbalancer_controller.LbUtil.{calculate_replicas}

-- A second write of the labels changes nothing.
write_all-selector :
    (lb : LoadBalancer)
    → write_all (entries (selector lb)) (entries (selector lb)) ≡ entries (selector lb)
unfolding write_all insert
write_all-selector lb = refl

-- The affinity and the containers of the generated pods.
abbrev affinity_of : LoadBalancer → Option NodeAffinity
affinity_of lb = if (calculate_replicas lb).1 then some (node_affinity lb) else none

abbrev containers_of : Nginx → LoadBalancer → List Container
containers_of f lb = ingress_container f lb ∷ sidecar_container f lb ∷ []

module _ (L : Library) (D : HasDeepCopy L) (f : Nginx) (keys : List String)
    (lb : LoadBalancer) where
  ensure_deployment-generated :
      (r r' : ℕ → ℕ) (namespace uid resource_version : String) (h : List Call)
      → let old = stored namespace uid resource_version (generate_deployment f r keys lb) in
        ensure_deployment L (generate_deployment f r' keys lb) old h ≡ (ok (old, false), h)
  unfolding generate_deployment corrected is_changed
  ensure_deployment-generated r r' namespace uid resource_version h =
      let old = stored namespace uid resource_version (generate_deployment f r keys lb) in
      ensure_deployment_lem L D (generate_deployment f r' keys lb) old (entries (selector lb))
        (calculate_replicas lb).0 (calculate_replicas lb).0 _ _ h refl refl refl refl refl
      ∙ rw
          (
            write_all-selector lb,
            deep_equal_refl (selector lb),
            (nat_eq.equals_iff (calculate_replicas lb).0 (calculate_replicas lb).0).1 refl,
            (node_affinity_eq.equals_iff (affinity_of lb) (affinity_of lb)).1 refl,
            containers_changed-own (containers_of f lb) ((refl, tt), (tt, tt)),
          )
          refl

  -- The deployment that `GenerateDeployment` makes has the prefix that `sync` looks for.
  is_generated-generated :
      (C : Cluster) (r : ℕ → ℕ) (namespace uid resource_version : String)
      → is_generated C L proxy_name_suffix
          (ensure_deployment L)
          lb
          (stored namespace uid resource_version (generate_deployment f r keys lb))
        ≡ true
  unfolding generate_deployment
  is_generated-generated C r namespace uid resource_version =
      starts_with-prefix lb.name proxy_name_suffix ("-" <> rand_string_bytes_rmndr r 4)

  -- If the one deployment that `sync` finds is what an earlier `sync` of the same load balancer has
  -- generated, with the namespace, uid and version that the API server gave it, then its loop makes
  -- no call, and that deployment is the active one, whatever random names the two have drawn.
  pub sync_loop-generated :
      (C : Cluster) (r r' : ℕ → ℕ) (namespace uid resource_version : String) (start : Deployment)
      (h : List Call)
      → let old = stored namespace uid resource_version (generate_deployment f r keys lb) in
        sync_loop C L proxy_name_suffix
          (ensure_deployment L)
          lb
          (generate_deployment f r' keys lb)
          (old ∷ [])
          false
          start
          h
        ≡ (ok (true, old), h)
  unfolding sync_loop sync_one update_ensured
  sync_loop-generated C r r' namespace uid resource_version start h =
      rw
        (
          is_generated-generated C r namespace uid resource_version,
          ensure_deployment-generated r r' namespace uid resource_version h,
        )
        refl
