-- ===== src/Witnesses/Generated.antt =====
-- Examples for deployments that the nginx proxy has generated or claims.
use loadbalancer_controller.Common.{
  ◌+◌, ◌≤◌, none, some, ◌≡◌, refl, List, [], ◌∷◌, Option-cases, inl, inr,
}
use loadbalancer_controller.Common.Effects.{Result, ok, err, panic, blocked, reply, continue}
use loadbalancer_controller.Api.{ObjectMeta, Deployment}
use loadbalancer_controller.Cluster.{Cluster, Call, HasRecheck}
use loadbalancer_controller.RefManager.Objects.Fetches.{fetches}
use loadbalancer_controller.Workload.{get_deployments_for_load_balancer}
use loadbalancer_controller.Workload.Claiming.{get_deployments_for_load_balancer-fetches}
use loadbalancer_controller.Witnesses.Samples.{library, cluster, sample_lb, routines, recheck}
use loadbalancer_controller.Nginx.Selector.{Nginx, selector}
use loadbalancer_controller.Nginx.Generate.{generate_deployment}
use loadbalancer_controller.Workload.Stored.{stored}

abbrev images : Nginx
images = record {
  image = "nginx:1";
  sidecar = "sidecar:1";
  default_http_backend = "backend:1";
  default_ssl_certificate = "";
}

-- What a sync wants, and what an earlier one has generated, as the API server keeps it.
abbrev desired : Deployment
desired = generate_deployment images (λ n. n + 1) ("dedicated" ∷ []) sample_lb

abbrev earlier : Deployment
earlier = stored "prod" "d-1" "7" (generate_deployment images (λ n. n) ("dedicated" ∷ []) sample_lb)

-- The rechecks of the samples make the calls of the fetch, and succeed as they should.
rechecked : (out : Result ObjectMeta × List Call) → (continue out.0 recheck out.1).1 ≡ out.1
rechecked (ok m, h) = elim (Option-cases m.deletion_timestamp) [
  | inl e ↦ rw e refl
  | inr (t, e) ↦ rw e refl
]
rechecked (err e, h) = refl
rechecked (panic, h) = refl
rechecked (blocked, h) = refl

recheck_ok :
    (out : Result ObjectMeta × List Call)
    → ((continue out.0 recheck out.1).0 ≡ ok tt)
    → (m : ObjectMeta) × (out.0 ≡ ok m) × (m.deletion_timestamp ≡ none)
recheck_ok (ok m, h) p = elim (Option-cases m.deletion_timestamp) [
  | inl e ↦ (m, refl, e)
  | inr (t, e) ↦ cc (rw e at p)
]
recheck_ok (err e, h) p = cc p
recheck_ok (panic, h) p = cc p
recheck_ok (blocked, h) p = cc p

routines-HasRecheck : HasRecheck routines
routines-HasRecheck = record {
  recheck_calls = λ f h. rechecked (f h);
  recheck_ok = λ f h. recheck_ok (f h);
}

-- A cluster that lists two deployments without a controller.
abbrev listing : Cluster
listing = record cluster {
  cached_deployments = λ h ns s. reply (earlier ∷ record earlier { replicas = some 1 } ∷ []);
}

get_deployments_for_load_balancer-fetches_example :
    fetches
      (get_deployments_for_load_balancer listing library routines sample_lb
        (selector sample_lb)
        []).1
    ≤ 1
get_deployments_for_load_balancer-fetches_example =
    get_deployments_for_load_balancer-fetches listing library routines routines-HasRecheck sample_lb
      (selector sample_lb) []
