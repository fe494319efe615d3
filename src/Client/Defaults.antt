-- ===== src/Client/Defaults.antt =====
-- The defaults of a client's configuration: pkg/tprclient/clientset.go and
-- pkg/tprclient/networking/v1alpha1/interface.go.
use loadbalancer_controller.Common.{not, ◌&&◌, ◌≡◌, refl, arith, string_eq}
use loadbalancer_controller.Common.{is_some, Bool-cases, inl, inr}
use loadbalancer_controller.Client.{
  Config, RestLibrary, set_config_defaults, rate_limited, networking_for_config, new_for_config,
}

module _ {S L D F R : Type 0} (V : RestLibrary S L D F R) where
  set_config_defaults_twice :
      (c : Config S L D F)
      → set_config_defaults V (set_config_defaults V c) ≡ set_config_defaults V c
  unfolding set_config_defaults
  set_config_defaults_twice c = ground arith

  rate_limited-set_config_defaults :
      (c : Config S L D F)
      → rate_limited V (set_config_defaults V c) ≡ set_config_defaults V (rate_limited V c)
  unfolding set_config_defaults rate_limited
  rate_limited-set_config_defaults c =
      elim (Bool-cases (not (is_some c.rate_limiter) && V.is_positive c.qps)) [
        | inl new ↦ rw new refl
        | inr old ↦ rw old refl
      ]

  rate_limited_twice : (c : Config S L D F) → rate_limited V (rate_limited V c) ≡ rate_limited V c
  unfolding rate_limited
  rate_limited_twice c = elim (Bool-cases (not (is_some c.rate_limiter) && V.is_positive c.qps)) [
    | inl new ↦ rw new refl
    | inr old ↦ rw (old, old) refl
  ]

  -- The defaults and the rate limiter that a client set gets are settled once: a configuration that
  -- has been through both gives the same client set, or the same error, as the one it came from.
  pub new_for_config-settled :
      (c : Config S L D F)
      → new_for_config V (set_config_defaults V (rate_limited V c)) ≡ new_for_config V c
  unfolding new_for_config networking_for_config
  new_for_config-settled c =
      rw
        (
          rate_limited-set_config_defaults (rate_limited V c),
          rate_limited_twice c,
          set_config_defaults_twice (rate_limited V c),
        )
        refl
