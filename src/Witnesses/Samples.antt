-- ===== src/Witnesses/Samples.antt =====
-- A small cluster and the vendored helpers as concrete functions, for the examples.
use loadbalancer_controller.Common.{◌<>◌}
use loadbalancer_controller.Common.{
  ℕ, suc, String, Bool, true, false, not, ◌&&◌, Option, none, some, ◌≡◌, refl,
}
use loadbalancer_controller.Common.{List, [], ◌∷◌, keep_if, any_of, ◌==◌, string_eq, if◌then◌else◌}
use loadbalancer_controller.Common.GoMap.{GoMap, Entries, entries, get}
use loadbalancer_controller.Common.Effects.{
  Error, not_found, already_exists, invalid, conflict, precondition_violated, server, message,
}
use loadbalancer_controller.Common.Effects.{
  reply, failed, Result, ok, err, panic, blocked, Exec, pure, fail, ◌>>=◌,
}
use loadbalancer_controller.Api.{ObjectMeta, OwnerReference, LoadBalancer, Taint}
use loadbalancer_controller.Cluster.{
  Cluster, Library, HasTaintHelpers, HasDeepCopy, Routines, HasRetry, Runs, last, again,
}
use loadbalancer_controller.Cluster.{Call, lb_queue, add_rate_limited, forget}

-- The first owner reference that is a controller.
abbrev pub first_controller : List OwnerReference → Option OwnerReference
first_controller [] = none
first_controller (r ∷ rs) = elim r.controller [
  | none ↦ first_controller rs
  | some b ↦ if b then some r else first_controller rs
]

abbrev pub is_value : String → Option String → Bool
is_value v none = false
is_value v (some w) = v == w

abbrev pub all_in : Entries → GoMap → Bool
all_in [] m = true
all_in ((k, v) ∷ es) m = is_value v (get k m) && all_in es m

abbrev pub same_slot : Taint → Taint → Bool
same_slot t u = t.key == u.key && t.effect == u.effect

abbrev pub first_error : List Error → Option Error
first_error [] = none
first_error (e ∷ es) = some e

abbrev pub library : Library
library = record {
  get_controller_of = λ m. first_controller m.owner_references;
  matches = λ s l. all_in (entries s) l;
  match_taint = same_slot;
  taint_to_string = λ t. t.key;
  delete_taint = λ ts t. (keep_if (λ u. not (same_slot t u)) ts, any_of (same_slot t) ts);
  delete_taints_by_key = λ ts k. (keep_if (λ u. not (k == u.key)) ts, any_of (λ u. k == u.key) ts);
  quote = λ s. "\"" <> s <> "\"";
  error_text = λ e. "error";
  deep_copy = reply;
  merge_patch = λ n n'. reply tt;
  new_aggregate = first_error;
}

pub library-HasTaintHelpers : HasTaintHelpers library
library-HasTaintHelpers = record {
  match_taint_lem = λ t u. refl;
  delete_taint_lem = λ ts t. refl;
  delete_taints_by_key_lem = λ ts k. refl;
}

pub library-HasDeepCopy : HasDeepCopy library
library-HasDeepCopy = record { deep_copy_lem = λ o. refl; merge_patch_lem = λ n n'. refl }

abbrev pub no_requests : GoMap
no_requests = none

abbrev pub named : String → String → ObjectMeta
named name uid = record {
  name = name;
  namespace = "prod";
  uid = uid;
  resource_version = "1";
  labels = some (("app", "web") ∷ []);
  owner_references = [];
  deletion_timestamp = none;
}

abbrev pub sample_lb : LoadBalancer
sample_lb = record {
  meta = named "web" "lb-1";
  spec = record {
    kind = "external";
    nodes = record { replicas = some 1; names = some ("node-1" ∷ []); effect = some "NoSchedule" };
    proxy = record {
      kind = "nginx";
      config = none;
      resources = record { limits = none; requests = none };
    };
    providers = record {
      service = none;
      ipvsdr = some (record { vip = "10.0.0.1"; scheduler = "rr" });
      aliyun = none;
      azure = none;
    };
  };
  status = record {
    proxy_status = record {
      pod_statuses = record { replicas = 0; total_replicas = 0; ready_replicas = 0; statuses = [] };
      deployment = "";
      ingress_class = "";
      config_map = "";
      tcp_config_map = "";
      udp_config_map = "";
    };
    providers_statuses = record { service = none; ipvsdr = none; aliyun = none; azure = none };
  };
}

-- An internal load balancer, which has no ipvsdr provider.
abbrev pub internal_lb : LoadBalancer
internal_lb = record sample_lb {
  spec = record (sample_lb.spec) {
    kind = "internal";
    providers = record {
      service = some (record { name = "svc" });
      ipvsdr = none;
      aliyun = none;
      azure = none;
    };
  };
}

-- The rate limited additions to the controller's queue since the last time it forgot its item.
abbrev pub requeues : List Call → ℕ
requeues [] = 0
requeues (add_rate_limited lb_queue o ∷ h) = suc (requeues h)
requeues (forget lb_queue o ∷ h) = 0
requeues (c ∷ h) = requeues h

-- A cluster with one load balancer that accepts every call.
abbrev pub cluster : Cluster
cluster = record {
  indexed_lb = λ h key. reply (some sample_lb);
  cached_lbs = λ h ns. reply (sample_lb ∷ []);
  cached_node = λ h name. failed not_found;
  cached_nodes = λ h s. reply [];
  cached_deployments = λ h ns s. reply [];
  cached_pods = λ h s. reply [];
  live_lb = λ h ns name. reply sample_lb;
  updated_lb = λ h ns lb. reply lb;
  live_config_map = λ h ns name. failed not_found;
  live_ingresses = λ h s. reply [];
  accepted = λ h c. reply tt;
  shutting_down = λ h q. false;
  num_requeues = λ h q o. requeues h;
  int63 = λ h n. n;
  intn_254 = λ h. 7;
}

-- A second attempt after a conflict.
abbrev pub retry_once :
    Exec Call LoadBalancer → Result LoadBalancer × List Call → Result LoadBalancer × List Call
retry_once f (err conflict, h) = f h
retry_once f x = x

abbrev pub recheck : ObjectMeta → Exec Call (Unit {0})
recheck m = elim m.deletion_timestamp [ none ↦ pure tt | some t ↦ fail (message "being deleted") ]

abbrev pub routines : Routines
routines = record {
  retry_on_conflict = λ f h. retry_once f (f h);
  recheck_deletion_timestamp = λ f. f >>= recheck;
}

retry_once-Runs :
    (f : Exec Call LoadBalancer) (h : List Call) (x : Result LoadBalancer × List Call)
    → f h ≡ x
    → Runs f h (retry_once f x)
retry_once-Runs f h (ok lb, h') e = last e
retry_once-Runs f h (err conflict, h') e = again e (last refl)
retry_once-Runs f h (err not_found, h') e = last e
retry_once-Runs f h (err already_exists, h') e = last e
retry_once-Runs f h (err invalid, h') e = last e
retry_once-Runs f h (err precondition_violated, h') e = last e
retry_once-Runs f h (err (server s), h') e = last e
retry_once-Runs f h (err (message s), h') e = last e
retry_once-Runs f h (panic, h') e = last e
retry_once-Runs f h (blocked, h') e = last e

pub routines-HasRetry : HasRetry routines
routines-HasRetry = record { retry_runs = λ f h. retry_once-Runs f h (f h) refl }
