-- ===== src/Command/Started.antt =====
-- What the action of cmd/controller/main.go leads to.
use loadbalancer_controller.Common.{
  ℕ, String, true, false, some, List, [], ◌∷◌, ◌++◌, map, ◌≡◌, refl, All-intro, string_eq,
}
use loadbalancer_controller.Common.Effects.{reply, blocked}
use loadbalancer_controller.Common.Table.{IsListing}
use loadbalancer_controller.Cluster.{Cluster, Call, run_informer}
use loadbalancer_controller.Config.{Options}
use loadbalancer_controller.Client.{Clientset, Config, new_for_config}
use loadbalancer_controller.Informers.Factory.{start}
use loadbalancer_controller.Informers.Factory.Caches.{start-new}
use loadbalancer_controller.Controller.New.Wiring.{new_controller-fresh}
use loadbalancer_controller.Controller.Start.Synced.{is_ensured, create_load_balancers}
use loadbalancer_controller.Controller.Start.Working.{calls_after, work_calls, run-synced}
use loadbalancer_controller.Command.{
  Environment, proxies, providers, controller_of, run_controller, action,
}

module _ {S L D F R I N W : Type 0} (C : Cluster) (E : Environment S L D F R I N W) where
  -- If the configuration and both clients can be made, the API server has or creates the resource,
  -- and all caches sync, then the program starts each informer that the new controller has asked for
  -- once and no other, five workers, the nginx proxy and the ipvsdr provider, in this order, and then
  -- waits for ever.
  pub action-synced :
      (opts : Options N (Clientset R)) (config : Config S L D F) (client : N)
      (tpr_client : Clientset R) (h : List Call)
      → E.build_config_from_flags opts.kubeconfig ≡ reply config
      → E.kubernetes_for_config config ≡ reply client
      → new_for_config E.rest config ≡ reply tpr_client
      → ((n : ℕ)
          → IsListing
              (E.range n (controller_of C E opts client tpr_client).setup.factory.informers)
              (controller_of C E opts client tpr_client).setup.factory.informers)
      → ((i : I) → E.wait i ≡ true)
      → is_ensured (C.accepted h create_load_balancers) ≡ true
      → let factory = (controller_of C E opts client tpr_client).setup.factory in
        (runs : List (String × I)) × IsListing runs factory.informers
        × (action C E opts h ≡ (
          blocked,
          calls_after
              (work_calls false 5 (proxies C) (providers C))
              (map (λ r. run_informer r.0) runs ++ create_load_balancers ∷ h),
        ))
  unfolding action run_controller
  action-synced opts config client tpr_client h b k n l w e =
      let factory = (controller_of C E opts client tpr_client).setup.factory in
      (
        (start (E.range 0 factory.informers) (factory, [])).1,
        start-new factory (E.range 0 factory.informers) (l 0) (
            new_controller-fresh E.server E.makers
              (record opts.cfg { client = some client; tpr_client = some tpr_client })),
        rw
            (
              b,
              k,
              n,
              run-synced C E.wait false factory (E.range 0 factory.informers)
                  (E.range 1 factory.informers) 5 (proxies C) (providers C) h e
                  (All-intro (E.range 1 factory.informers) (λ r. w r.1)),
            )
            refl,
      )
