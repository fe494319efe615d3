-- ===== src/Cluster/Vendored.antt =====
-- The vendored Kubernetes helpers, as parameters, with their documented behaviour.
use loadbalancer_controller.Common.{String, ◌≡◌, ◌≢◌, Bool, not, ◌&&◌}
use loadbalancer_controller.Common.{Option, none, List, [], ◌∷◌, ◌==◌, string_eq, any_of, keep_if}
use loadbalancer_controller.Common.GoMap.{GoMap}
use loadbalancer_controller.Common.Effects.{Error, Reply, reply, conflict, Result, Exec, ok, err}
use loadbalancer_controller.Cluster.Calls.{Call, Obj}
use loadbalancer_controller.Api.{ObjectMeta, OwnerReference, Taint, LoadBalancer, Node}

pub record Library : Type 0 where
  -- `controller.GetControllerOf`
  pub get_controller_of : ObjectMeta → Option OwnerReference
  -- `labels.Set(s).AsSelector().Matches(l)`
  pub matches : GoMap → GoMap → Bool
  -- methods of `v1.Taint` and its helpers
  pub match_taint : Taint → Taint → Bool
  pub taint_to_string : Taint → String
  pub delete_taint : List Taint → Taint → List Taint × Bool
  pub delete_taints_by_key : List Taint → String → List Taint × Bool
  -- `fmt.Sprintf("%q", s)`
  pub quote : String → String
  -- `err.Error()`
  pub error_text : Error → String
  -- `scheme.Scheme.DeepCopy`
  pub deep_copy : Obj → Reply Obj
  -- `strategicpatch.CreateTwoWayMergePatch`, which may fail
  pub merge_patch : Node → Node → Reply (Unit {0})
  -- `utilerrors.NewAggregate`
  pub new_aggregate : List Error → Option Error

-- Taints are told apart by key and effect, and a deletion keeps the order of the rest.
pub record HasTaintHelpers (L : Library) : Type 0 where
  pub match_taint_lem : (t u : Taint) → L.match_taint t u ≡ (t.key == u.key && t.effect == u.effect)
  pub delete_taint_lem :
      (ts : List Taint) (t : Taint)
      → L.delete_taint ts t
        ≡ (keep_if (λ u. not (L.match_taint t u)) ts, any_of (L.match_taint t) ts)
  pub delete_taints_by_key_lem :
      (ts : List Taint) (k : String)
      → L.delete_taints_by_key ts k
        ≡ (keep_if (λ u. not (k == u.key)) ts, any_of (λ u. k == u.key) ts)

-- An aggregate of no errors is no error.
pub record HasAggregate (L : Library) : Type 0 where
  pub aggregate-nil : L.new_aggregate [] ≡ none
  pub aggregate-cons : (e : Error) (es : List Error) → L.new_aggregate (e ∷ es) ≢ none

-- A deep copy is the same value, and a patch between nodes can be made.
pub record HasDeepCopy (L : Library) : Type 0 where
  pub deep_copy_lem : (o : Obj) → L.deep_copy o ≡ reply o
  pub merge_patch_lem : (n n' : Node) → L.merge_patch n n' ≡ reply tt

-- The vendored routines that call back.
pub record Routines : Type 0 where
  -- `retry.RetryOnConflict(retry.DefaultBackoff, f)`
  pub retry_on_conflict : Exec Call LoadBalancer → Exec Call LoadBalancer
  -- `controller.RecheckDeletionTimestamp(f)`
  pub recheck_deletion_timestamp : Exec Call ObjectMeta → Exec Call (Unit {0})

-- Runs of a function, each but the last of which ends in a conflict.
pub data Runs (f : Exec Call LoadBalancer)
    : List Call → Result LoadBalancer × List Call → Type 0 where
  last : {h : List Call} {r : Result LoadBalancer × List Call} → f h ≡ r → Runs f h r
  again :
      {h h' : List Call} {r : Result LoadBalancer × List Call}
      → f h ≡ (err conflict, h')
      → Runs f h' r
      → Runs f h r

-- A retry runs its function until it does not end in a conflict, or gives up on the last one.
pub record HasRetry (R : Routines) : Type 0 where
  pub retry_runs : (f : Exec Call LoadBalancer) (h : List Call) → Runs f h (R.retry_on_conflict f h)

-- The recheck fetches the object once; it succeeds if the fetch does and nothing has deleted it.
pub record HasRecheck (R : Routines) : Type 0 where
  pub recheck_calls :
      (f : Exec Call ObjectMeta) (h : List Call) → (R.recheck_deletion_timestamp f h).1 ≡ (f h).1
  pub recheck_ok :
      (f : Exec Call ObjectMeta) (h : List Call)
      → (R.recheck_deletion_timestamp f h).0 ≡ ok tt
      → (m : ObjectMeta) × ((f h).0 ≡ ok m) × (m.deletion_timestamp ≡ none)
