-- ===== src/Workload/Totals.antt =====
-- What the loop of syncStatus over the pods finds: proxy/proxies/nginx/status.go and
-- provider/providers/ipvsdr/status.go.
use loadbalancer_controller.Common.{
  ℕ, ◌+◌, Bool, true, false, not, ◌&&◌, ◌≡◌, refl, ◌∙◌, arith, if◌then◌else◌,
}
use loadbalancer_controller.Common.{
  List, [], ◌∷◌, ◌++◌, map, is_empty, items, is_some, length, string_eq,
}
use loadbalancer_controller.Common.Effects.{Result, ok, ignore-call}
use loadbalancer_controller.Api.{LoadBalancer, Pod, PodStatus, PodStatuses, int32}
use loadbalancer_controller.Cluster.{Cluster, Call, delete_pod}
use loadbalancer_controller.LbUtil.{compute_pod_status}
use loadbalancer_controller.Workload.{string_in_slice, evict_pod, status_loop, add_status}
use mathlib.Core.List.{append_assoc, append-nil}

-- The load balancer names nodes, the pod is on none of them, and is not being deleted.
abbrev pub is_misplaced : LoadBalancer → Pod → Bool
is_misplaced lb p =
    not (is_empty (items lb.spec.nodes.names))
    && not (string_in_slice p.node_name (items lb.spec.nodes.names))
    && not (is_some p.deletion_timestamp)

-- The deletions of the misplaced pods, after the calls so far.
abbrev pub evictions : LoadBalancer → List Pod → List Call → List Call
evictions lb [] h = h
evictions lb (p ∷ ps) h =
    let rest = evictions lb ps in
    if is_misplaced lb p then rest (delete_pod p.namespace p.name ∷ h) else rest h

abbrev pub is_ready : Pod → Bool
is_ready p = (compute_pod_status p).ready

int32-step : (n : ℕ) → int32 (int32 n + 1) ≡ int32 (n + 1)
int32-step n = omega arith

module _ (C : Cluster) (lb : LoadBalancer) where
  evict_pod_lem :
      (p : Pod) (h : List Call)
      → evict_pod C lb p h
        ≡ (ok tt, if is_misplaced lb p then delete_pod p.namespace p.name ∷ h else h)
  unfolding evict_pod
  evict_pod_lem p h = ground (
    arith,
    ignore-call (delete_pod p.namespace p.name) (λ k. C.accepted k (delete_pod p.namespace p.name))
        h,
  )

  evictions-cons :
      (p : Pod) (ps : List Pod) (h : List Call)
      → evictions lb ps (if is_misplaced lb p then delete_pod p.namespace p.name ∷ h else h)
        ≡ evictions lb (p ∷ ps) h
  evictions-cons p ps h = ground arith

-- The number of ready pods.
abbrev pub count_ready : List Pod → ℕ
count_ready [] = 0
count_ready (p ∷ ps) = (if is_ready p then 1 else 0) + count_ready ps

-- The counters, kept as 32-bit integers, and the statuses found.
abbrev pub totals : ℕ → ℕ → ℕ → List PodStatus → PodStatuses
totals replicas n r statuses = record {
  replicas = replicas;
  total_replicas = int32 n;
  ready_replicas = int32 r;
  statuses = statuses;
}

bump :
    (b : Bool) (r : ℕ)
    → (if b then int32 (int32 r + 1) else int32 r) ≡ int32 ((if b then 1 else 0) + r)
bump true r = omega arith
bump false r = omega arith

add_status-totals :
    (s : PodStatus) (m n r : ℕ) (found : List PodStatus)
    → add_status s (totals m n r found)
      ≡ totals m (n + 1) ((if s.ready then 1 else 0) + r) (found ++ s ∷ [])
unfolding add_status
add_status-totals s m n r found = rw (int32-step n, bump s.ready r) refl

module _ (C : Cluster) (lb : LoadBalancer) where
  after_one :
      (p : Pod) (ps : List Pod) (m n r : ℕ) (found : List PodStatus) (h : List Call)
      → ◌≡◌ {A = Result PodStatuses × List Call}
          (
            ok (
                totals m
                  (n + 1 + length ps)
                  ((if is_ready p then 1 else 0) + r + count_ready ps)
                  ((found ++ compute_pod_status p ∷ []) ++ map compute_pod_status ps)),
            evictions lb ps (if is_misplaced lb p then delete_pod p.namespace p.name ∷ h else h),
          )
          (
            ok (
                totals m
                  (n + length (p ∷ ps))
                  (r + count_ready (p ∷ ps))
                  (found ++ map compute_pod_status (p ∷ ps))),
            evictions lb (p ∷ ps) h,
          )
  after_one p ps m n r found h =
      let en : n + 1 + length ps ≡ n + length (p ∷ ps) = omega arith in
      let er : (if is_ready p then 1 else 0) + r + count_ready ps ≡ r + count_ready (p ∷ ps) =
        omega arith in
      rw
        (
          en,
          er,
          append_assoc found (compute_pod_status p ∷ []) (map compute_pod_status ps),
          evictions-cons C lb p ps h,
        )
        refl

  loop_from :
      (ps : List Pod) (m n r : ℕ) (found : List PodStatus) (h : List Call)
      → status_loop C lb ps (totals m n r found) h ≡ (
        ok (totals m (n + length ps) (r + count_ready ps) (found ++ map compute_pod_status ps)),
        evictions lb ps h,
      )
  unfolding status_loop
  loop_from [] m n r found h =
      let en : n + 0 ≡ n = omega arith in
      let er : r + 0 ≡ r = omega arith in rw (en, er, append-nil found) refl
  loop_from (p ∷ ps) m n r found h =
      rw (evict_pod_lem C lb p h, add_status-totals (compute_pod_status p) m n r found)
        (loop_from ps m (n + 1) _ _ _ ∙ after_one p ps m n r found h)

  -- The loop over the pods of a load balancer returns the number of pods and the number of ready pods
  -- as 32-bit integers, and the pods' statuses in their order. It makes no call but the deletions of
  -- the misplaced pods, in their order, whether or not the API server accepts them.
  pub status_loop_lem :
      (ps : List Pod) (replicas : ℕ) (h : List Call)
      → status_loop C lb ps (totals replicas 0 0 []) h ≡ (
        ok (totals replicas (length ps) (count_ready ps) (map compute_pod_status ps)),
        evictions lb ps h,
      )
  status_loop_lem ps replicas h =
      let en : 0 + length ps ≡ length ps = omega arith in
      let er : 0 + count_ready ps ≡ count_ready ps = omega arith in
      rw (en, er) at (loop_from ps replicas 0 0 [] h)
