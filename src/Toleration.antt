-- ===== src/Toleration.antt =====
-- pkg/toleration/toleration.go, and additionalTolerations of config/config.go.
use loadbalancer_controller.Common.{String, List, [], ◌∷◌, ◌++◌, map}
use loadbalancer_controller.Api.{Toleration, taint_key}

-- `tolerationKeys` at the start.
abbrev pub toleration_keys : List String
toleration_keys = taint_key ∷ []

-- `AddAdditionalTolerationKeys`
unfoldable pub add_additional_toleration_keys : List String → List String → List String
add_additional_toleration_keys keys known = known ++ keys

-- `GenerateTolerations`, from the keys so far.
unfoldable pub generate_tolerations : List String → List Toleration
generate_tolerations = map (λ key. record { key = key; operator = "Exists" })
