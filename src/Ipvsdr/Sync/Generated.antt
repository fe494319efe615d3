-- ===== src/Ipvsdr/Sync/Generated.antt =====
-- ensureDeployment and sync of provider/providers/ipvsdr/ipvsdr.go on what generateDeployment has
-- made.
use loadbalancer_controller.Common.{
  ℕ, String, ◌<>◌, true, false, some, ◌≡◌, refl, List, [], ◌∷◌, string_eq, nat_eq,
}
use loadbalancer_controller.Common.Effects.{ok}
use loadbalancer_controller.Common.GoMap.{insert, entries, deep_equal_refl}
use loadbalancer_controller.Api.{
  LoadBalancer, Deployment, node_affinity_eq, created_by, label_key_created_by, label_key_provider,
}
use loadbalancer_controller.Cluster.{Cluster, Library, HasDeepCopy, Call}
use loadbalancer_controller.LbUtil.Copies.{deployment_deep_copy_lem}
use loadbalancer_controller.LbUtil.Random.{rand_string_bytes_rmndr}
use loadbalancer_controller.LbUtil.{calculate_replicas}
use loadbalancer_controller.Workload.Stored.{stored, starts_with-prefix}
use loadbalancer_controller.Workload.Loop.{sync_loop, sync_one, update_ensured, is_generated}
use loadbalancer_controller.Ipvsdr.Selector.{Ipvsdr, provider_name, provider_name_suffix, selector}
use loadbalancer_controller.Ipvsdr.Generate.{generate_deployment, node_affinity}
use loadbalancer_controller.Ipvsdr.Ensure.{corrected, is_changed, ensure_deployment}

-- A second write of the labels changes nothing.
insert-selector :
    (lb : LoadBalancer)
    → insert label_key_provider provider_name
        (insert label_key_created_by (created_by lb.namespace lb.name) (entries (selector lb)))
      ≡ entries (selector lb)
unfolding insert
insert-selector lb = refl

module _ (L : Library) (D : HasDeepCopy L) (f : Ipvsdr) (keys : List String)
    (lb : LoadBalancer) where
  ensure_deployment-generated :
      (r r' : ℕ → ℕ) (namespace uid resource_version : String) (h : List Call)
      → let old = stored namespace uid resource_version (generate_deployment f r keys lb) in
        ensure_deployment L (generate_deployment f r' keys lb) old h ≡ (ok (old, false), h)
  unfolding generate_deployment ensure_deployment corrected is_changed
  ensure_deployment-generated r r' namespace uid resource_version h =
      rw
        (
          deployment_deep_copy_lem L D
              (stored namespace uid resource_version (generate_deployment f r keys lb)),
          insert-selector lb,
          deep_equal_refl (selector lb),
          (nat_eq.equals_iff (calculate_replicas lb).0 (calculate_replicas lb).0).1 refl,
          (node_affinity_eq.equals_iff (some (node_affinity lb)) (some (node_affinity lb))).1 refl,
          (string_eq.equals_iff f.image f.image).1 refl,
        )
        refl

  is_generated-generated :
      (C : Cluster) (r : ℕ → ℕ) (namespace uid resource_version : String)
      → is_generated C L provider_name_suffix
          (ensure_deployment L)
          lb
          (stored namespace uid resource_version (generate_deployment f r keys lb))
        ≡ true
  unfolding generate_deployment
  is_generated-generated C r namespace uid resource_version =
      starts_with-prefix lb.name provider_name_suffix ("-" <> rand_string_bytes_rmndr r 4)

  -- The loop of `sync` leaves the one deployment that an earlier `sync` has generated.
  pub sync_loop-settled :
      (C : Cluster) (r r' : ℕ → ℕ) (namespace uid resource_version : String) (start : Deployment)
      (h : List Call)
      → let old = stored namespace uid resource_version (generate_deployment f r keys lb) in
        sync_loop C L provider_name_suffix
          (ensure_deployment L)
          lb
          (generate_deployment f r' keys lb)
          (old ∷ [])
          false
          start
          h
        ≡ (ok (true, old), h)
  unfolding sync_loop sync_one update_ensured
  sync_loop-settled C r r' namespace uid resource_version start h =
      rw
        (
          is_generated-generated C r namespace uid resource_version,
          ensure_deployment-generated r r' namespace uid resource_version h,
        )
        refl
