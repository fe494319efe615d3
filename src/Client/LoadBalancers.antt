-- ===== src/Client/LoadBalancers.antt =====
-- pkg/tprclient/networking/v1alpha1/loadbalancer.go
use loadbalancer_controller.Common.{ℕ, String, Bool, true, Option, none, some, List, [], ◌∷◌}
use loadbalancer_controller.Common.Effects.{Reply, Exec, deref, call, ◌>>=◌}
use loadbalancer_controller.Api.{LoadBalancer}
use loadbalancer_controller.Client.{NetworkingClient, rest_client}

-- `v1.ListOptions`
pub record ListOptions : Type 0 where
  pub label_selector : String
  pub field_selector : String
  pub watch : Bool
  pub resource_version : String
  pub timeout_seconds : Option ℕ

-- `v1.GetOptions`
pub record GetOptions : Type 0 where
  pub resource_version : String

-- `v1.DeleteOptions`
pub record DeleteOptions : Type 0 where
  pub grace_period_seconds : Option ℕ
  pub preconditions_uid : Option String
  pub orphan_dependents : Option Bool

pub data Verb : Type 0 where
  get post put delete : Verb
  patch : String → Verb

-- What `VersionedParams` encodes.
pub data Params : Type 0 where
  no_params : Params
  get_params : GetOptions → Params
  list_params : ListOptions → Params

pub data Body : Type 0 where
  no_body : Body
  object : LoadBalancer → Body
  options : Option DeleteOptions → Body
  bytes : String → Body

-- A request, as its builder has put it together.
pub record Request : Type 0 where
  pub verb : Verb
  pub namespace : String
  pub resource : String
  pub sub_resources : List String
  pub name : Option String
  pub params : Params
  pub body : Body

-- What the server answers, after the requests so far: an object, a list of objects, no more than
-- its error, or a watch, for the REST clients R and the watches W.
pub record Server (R W : Type 0) : Type 0 where
  pub into_object : R → List Request → Reply LoadBalancer
  pub into_list : R → List Request → Reply (List LoadBalancer)
  pub error : R → List Request → Reply (Unit {0})
  pub watching : R → List Request → Reply W

-- `LoadBalancerPlural`
abbrev pub load_balancer_plural : String
load_balancer_plural = "loadbalancers"

-- `loadbalancers`
pub record LoadBalancers (R : Type 0) : Type 0 where
  pub client : Option R
  pub ns : String

module _ {R : Type 0} where
  -- `newLoadBalancers`, which is all of the method `LoadBalancers`
  abbrev pub load_balancers : Option (NetworkingClient R) → String → LoadBalancers R
  load_balancers c namespace = record { client = rest_client c; ns = namespace }

  -- A request for the load balancers of the namespace.
  abbrev pub request : LoadBalancers R → Verb → Request
  request c verb = record {
    verb = verb;
    namespace = c.ns;
    resource = load_balancer_plural;
    sub_resources = [];
    name = none;
    params = no_params;
    body = no_body;
  }

  -- The request is made with the client; a nil client panics. The answer is read by `Into`, `Error`
  -- or `Watch`.
  unfoldable pub do_request :
      {A : Type 0} → LoadBalancers R → (R → List Request → Reply A) → Request → Exec Request A
  do_request c answer r = deref c.client >>= λ client. call r (λ h. answer client (r ∷ h))

module _ {R W : Type 0} (V : Server R W) (c : LoadBalancers R) where
  -- `Create`
  unfoldable pub create : LoadBalancer → Exec Request LoadBalancer
  unfolding do_request
  create lb = do_request c V.into_object (record (request c post) { body = object lb })

  -- `Update`
  unfoldable pub update : LoadBalancer → Exec Request LoadBalancer
  unfolding do_request
  update lb =
      do_request c V.into_object (record (request c put) { name = some lb.name; body = object lb })

  -- `Delete`
  unfoldable pub delete_one : String → Option DeleteOptions → Exec Request (Unit {0})
  unfolding do_request
  delete_one name opts =
      do_request c V.error (record (request c delete) { name = some name; body = options opts })

  -- `DeleteCollection`
  unfoldable pub delete_collection : Option DeleteOptions → ListOptions → Exec Request (Unit {0})
  unfolding do_request
  delete_collection opts list_opts =
      do_request c V.error
        (record (request c delete) { params = list_params list_opts; body = options opts })

  -- `Get`
  unfoldable pub get_one : String → GetOptions → Exec Request LoadBalancer
  unfolding do_request
  get_one name opts =
      do_request c V.into_object
        (record (request c get) { name = some name; params = get_params opts })

  -- `List`
  unfoldable pub list : ListOptions → Exec Request (List LoadBalancer)
  unfolding do_request
  list opts = do_request c V.into_list (record (request c get) { params = list_params opts })

  -- `Watch`
  unfoldable pub watch : ListOptions → Exec Request W
  unfolding do_request
  watch opts =
      do_request c V.watching
        (record (request c get) { params = list_params (record opts { watch = true }) })

  -- `Patch`
  unfoldable pub patch_one : String → String → String → List String → Exec Request LoadBalancer
  unfolding do_request
  patch_one name pt content sub_resources =
      do_request c V.into_object (record (request c (patch pt)) {
        sub_resources = sub_resources;
        name = some name;
        body = bytes content;
      })
