-- ===== src/Client/Confined.antt =====
-- What pkg/tprclient/networking/v1alpha1/loadbalancer.go asks of the API server.
use loadbalancer_controller.Common.{String, Option, none, some, List, ◌∷◌, ◌≡◌, refl, inl, inr}
use loadbalancer_controller.Common.Effects.{Reply, Reply-cases}
use loadbalancer_controller.Api.{LoadBalancer}
use loadbalancer_controller.Client.LoadBalancers.{
  ListOptions, GetOptions, DeleteOptions, Request, Server, LoadBalancers, load_balancer_plural,
  do_request, create, update, delete_one, delete_collection, get_one, list, watch, patch_one,
}

-- A method of `LoadBalancerInterface` with its arguments.
pub data Operation : Type 0 where
  creating updating : LoadBalancer → Operation
  deleting : String → Option DeleteOptions → Operation
  deleting_collection : Option DeleteOptions → ListOptions → Operation
  getting : String → GetOptions → Operation
  listing watching : ListOptions → Operation
  patching : String → String → String → List String → Operation

-- The name of the one object that it is about.
abbrev pub target : Operation → Option String
target (updating lb) = some lb.name
target (deleting name o) = some name
target (getting name o) = some name
target (patching name pt content sub_resources) = some name
target o = none

module _ {R W : Type 0} (V : Server R W) (c : LoadBalancers R) where
  -- The requests that have been made after the operation.
  abbrev pub requests_after : Operation → List Request → List Request
  requests_after (creating lb) h = (create V c lb h).1
  requests_after (updating lb) h = (update V c lb h).1
  requests_after (deleting name o) h = (delete_one V c name o h).1
  requests_after (deleting_collection o l) h = (delete_collection V c o l h).1
  requests_after (getting name o) h = (get_one V c name o h).1
  requests_after (listing o) h = (list V c o h).1
  requests_after (watching o) h = (watch V c o h).1
  requests_after (patching name pt content sub_resources) h =
      (patch_one V c name pt content sub_resources h).1

  -- One more request, for the load balancers of the namespace and the object.
  abbrev pub IsConfined : List Request → List Request → Option String → Type 0
  IsConfined h' h name =
      (r : Request) × (h' ≡ r ∷ h)
      × (r.namespace ≡ c.ns)
      × (r.resource ≡ load_balancer_plural)
      × (r.name ≡ name)

  do_request-IsConfined :
      {A : Type 0} (answer : R → List Request → Reply A) (r : Request) (client : R)
      (h : List Request)
      → c.client ≡ some client
      → (do_request c answer r h).1 ≡ r ∷ h
  unfolding do_request
  do_request-IsConfined answer r client h e = elim (Reply-cases (answer client (r ∷ h))) [
    | inl (a, e') ↦ rw (e, e') refl
    | inr (x, e') ↦ rw (e, e') refl
  ]

  -- With a client that is not nil, every method makes exactly one request, which is for the
  -- resource `loadbalancers`, in the namespace that `LoadBalancers` was called with, and for the
  -- object of the given name where the method is about one.
  pub requests_after-IsConfined :
      (o : Operation) (client : R) (h : List Request)
      → c.client ≡ some client
      → IsConfined (requests_after o h) h (target o)
  unfolding create update delete_one delete_collection get_one list watch patch_one
  requests_after-IsConfined (creating lb) client h e =
      (_, do_request-IsConfined V.into_object _ client h e, refl, refl, refl)
  requests_after-IsConfined (updating lb) client h e =
      (_, do_request-IsConfined V.into_object _ client h e, refl, refl, refl)
  requests_after-IsConfined (deleting name o) client h e =
      (_, do_request-IsConfined V.error _ client h e, refl, refl, refl)
  requests_after-IsConfined (deleting_collection o l) client h e =
      (_, do_request-IsConfined V.error _ client h e, refl, refl, refl)
  requests_after-IsConfined (getting name o) client h e =
      (_, do_request-IsConfined V.into_object _ client h e, refl, refl, refl)
  requests_after-IsConfined (listing o) client h e =
      (_, do_request-IsConfined V.into_list _ client h e, refl, refl, refl)
  requests_after-IsConfined (watching o) client h e =
      (_, do_request-IsConfined V.watching _ client h e, refl, refl, refl)
  requests_after-IsConfined (patching name pt content sub_resources) client h e =
      (_, do_request-IsConfined V.into_object _ client h e, refl, refl, refl)
