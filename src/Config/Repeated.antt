-- ===== src/Config/Repeated.antt =====
-- The additional tolerations of config/config.go and pkg/toleration/toleration.go.
use loadbalancer_controller.Common.{String, ◌≡◌, refl, List, [], ◌++◌}
use loadbalancer_controller.Common.Split.{split, split_cons, join-split}
use loadbalancer_controller.Toleration.{add_additional_toleration_keys}
use loadbalancer_controller.Config.{
  AdditionalTolerations, add_values, set_tolerations, tolerations_string,
}

-- A value always has a part, so the early return of `Set` is never taken.
set_tolerations-adds :
    (value : String) (a : AdditionalTolerations) (keys : List String)
    → set_tolerations value (a, keys) ≡ (a ++ split "," value, keys ++ (a ++ split "," value))
unfolding add_values set_tolerations add_additional_toleration_keys
set_tolerations-adds value a keys = let (p, ps, e) = split_cons "," value in rw e refl

-- A value that is set first is what `String` gives back, and its parts are the keys that are
-- tolerated from then on, after those that were. A second value that is set adds the parts of the
-- first one to those keys once more, before its own.
pub set_tolerations_twice :
    (first second : String) (keys : List String)
    → let (a, once) = set_tolerations first ([], keys) in
      (tolerations_string a ≡ first)
      × (once ≡ keys ++ split "," first)
      × ((set_tolerations second (a, once)).1
          ≡ (keys ++ split "," first) ++ (split "," first ++ split "," second))
set_tolerations_twice first second keys =
    rw
      (
        set_tolerations-adds first [] keys,
        set_tolerations-adds second ([] ++ split "," first) (keys ++ ([] ++ split "," first)),
      )
      (join-split "," first, refl, refl)
