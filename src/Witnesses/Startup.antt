-- ===== src/Witnesses/Startup.antt =====
-- Examples for pkg/informers and pkg/tprclient.
use loadbalancer_controller.Common.{ℕ, String, some, List, [], ◌∷◌, ◌≡◌, refl, string_eq, nat_eq}
use loadbalancer_controller.Common.Effects.{reply, failed, message}
use loadbalancer_controller.Common.Table.{find, put, IsListing}
use loadbalancer_controller.Witnesses.Samples.{sample_lb}
use loadbalancer_controller.Informers.Factory.{
  Factory, new_shared_informer_factory, informer_for, tpr_informer_for, start, register,
}
use loadbalancer_controller.Informers.Factory.Phases.{view, IsSound}
use loadbalancer_controller.Informers.Factory.Life.{
  Step, ask, begin, Reach, here, next, Reach-IsSound,
}
use loadbalancer_controller.Informers.Factory.Refinement.{
  AbstractStep, Reach-AbstractStep, informer_for_again,
}
use loadbalancer_controller.Informers.Generic.{Resource, Accessor}
use loadbalancer_controller.Client.LoadBalancers.{Server, LoadBalancers, load_balancers}
use loadbalancer_controller.Client.Confined.{
  patching, requests_after, IsConfined, requests_after-IsConfined,
}

-- A factory of informers that are numbers, from clients that are numbers.
abbrev Numbers : Type 0
Numbers = Factory String ℕ ℕ ℕ

abbrev fresh : Numbers
fresh = new_shared_informer_factory 1 2 0

-- One informer is asked for and started.
abbrev with_pods : Numbers
with_pods = (informer_for "pods" (λ client resync. client) fresh).0

abbrev order : List (String × ℕ)
order = ("pods", 1) ∷ []

order-IsListing : IsListing order with_pods.informers
unfolding informer_for register find put
order-IsListing = ((refl, tt), λ key. refl)

abbrev started : Numbers × List (String × ℕ)
started = start order (with_pods, [])

asking : Reach (fresh, []) (with_pods, [])
asking = next here (ask "pods" (λ client resync. client) fresh [])

starting : Step (with_pods, []) started
starting = begin order with_pods [] order-IsListing

Reach-IsSound_example : IsSound started
Reach-IsSound_example = Reach-IsSound 1 2 0 started (next asking starting)

Reach-AbstractStep_example : AbstractStep (view with_pods) (view started.0)
Reach-AbstractStep_example = Reach-AbstractStep 1 2 0 (with_pods, []) started asking starting

informer_for_again_example :
    (informer_for "pods" (λ client resync. 9) started.0
      ≡ (started.0, (informer_for "pods" (λ client resync. client) fresh).1))
    × (tpr_informer_for "pods" (λ client resync. 8) started.0
        ≡ (started.0, (informer_for "pods" (λ client resync. client) fresh).1))
informer_for_again_example =
    informer_for_again 1 2 0 fresh started.0 [] started.1 "pods" (λ client resync. client)
      (λ client resync. 9) (λ client resync. 8) here (next here starting)

-- The informer of an accessor, for a factory that keeps none.
abbrev informer_at : Accessor → Numbers → Numbers × ℕ
informer_at a f = (f, 5)

abbrev pods : Resource
pods = record { group = ""; version = "v1"; resource = "pods" }

-- A server that answers every request, for clients and watches that are numbers.
abbrev pub server : Server ℕ ℕ
server = record {
  into_object = λ r h. reply sample_lb;
  into_list = λ r h. reply (sample_lb ∷ []);
  error = λ r h. failed (message "busy");
  watching = λ r h. reply 0;
}

abbrev lbs : LoadBalancers ℕ
lbs = load_balancers (some (record { client = 3 })) "default"

requests_after-IsConfined_example :
    IsConfined server lbs
      (requests_after server lbs (patching "web" "merge" "{}" []) [])
      []
      (some "web")
requests_after-IsConfined_example =
    requests_after-IsConfined server lbs (patching "web" "merge" "{}" []) 3 [] refl
