-- ===== src/Informers/Generic/Cases.antt =====
-- The cases of ForResource of pkg/informers/generic.go.
use loadbalancer_controller.Common.{Option, none, some, ◌≡◌, refl, ◌⊎◌, inl, inr, Option-cases}
use loadbalancer_controller.Common.Effects.{reply, failed}
use loadbalancer_controller.Common.Table.{
  find, swapped, find-swapped, are_unique, are_unique-HasUniqueKeys, HasUniqueKeys,
}
use loadbalancer_controller.Informers.Factory.{Factory}
use loadbalancer_controller.Informers.Generic.{
  Resource, Accessor, resource_eq, accessor_eq, cases, accessor_of, no_informer, for_resource,
}

cases_unique : HasUniqueKeys (swapped cases)
unfolding are_unique accessor_eq
cases_unique = are_unique-HasUniqueKeys (swapped cases) refl

-- The resource whose case has the accessor.
abbrev pub resource_of : Accessor → Option Resource
resource_of a = find a (swapped cases)

module _ {T I K Q : Type 0} (informer_at : Accessor → Factory T I K Q → Factory T I K Q × I) where
  -- For each resource, `ForResource` either answers with the informer that an accessor gives which no
  -- other resource's case uses, and with the group and the name of the resource, or the resource is
  -- in no case, and it gives an error that names the resource and leaves the factory as it is.
  pub for_resource_lem :
      (r : Resource) (f : Factory T I K Q)
      → ((a : Accessor) × (resource_of a ≡ some r)
          × (for_resource informer_at r f ≡ (
            (informer_at a f).0,
            reply (record { informer = (informer_at a f).1; resource = (r.group, r.resource) }),
          )))
        ⊎ ((accessor_of r ≡ none) × (for_resource informer_at r f ≡ (f, failed (no_informer r))))
  unfolding for_resource accessor_of
  for_resource_lem r f = elim (Option-cases (find r cases)) [
    | inl e ↦ inr (e, rw e refl)
    | inr (a, e) ↦ inl (a, find-swapped cases r a cases_unique e, rw e refl)
  ]
