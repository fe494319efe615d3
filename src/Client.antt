-- ===== src/Client.antt =====
-- pkg/tprclient/clientset.go and pkg/tprclient/networking/v1alpha1/interface.go
pub mod LoadBalancers
pub mod Confined
pub mod Defaults
use loadbalancer_controller.Common.{
  ℕ, String, Bool, not, ◌&&◌, Option, none, some, ◌==◌, string_eq, is_some, if◌then◌else◌,
}
use loadbalancer_controller.Common.Effects.{Reply, reply, failed, Result, ok, err, panic, blocked}
use loadbalancer_controller.Api.{alpha_group_name, version}

-- `rest.Config`, for the serializers S and the rate limiters L. The fields that the code does not
-- read or set, the server and its credentials, are one value of D. `qps` is a `float32` F.
pub record Config (S L D F : Type 0) : Type 0 where
  pub group_version : Option (String × String)
  pub api_path : String
  pub content_type : String
  pub negotiated_serializer : Option S
  pub user_agent : String
  pub rate_limiter : Option L
  pub qps : F
  pub burst : ℕ
  pub others : D

-- What client-go does: the codec of its scheme, the default user agent, the rate limiter of a rate
-- and a burst, the test that a rate is above zero, and `RESTClientFor`.
pub record RestLibrary (S L D F R : Type 0) : Type 0 where
  pub direct_codec_factory : S
  pub default_kubernetes_user_agent : String
  pub new_token_bucket_rate_limiter : F → ℕ → L
  pub is_positive : F → Bool
  pub rest_client_for : Config S L D F → Reply R

-- `NetworkingV1alpha1Client`
pub record NetworkingClient (R : Type 0) : Type 0 where
  pub client : R

-- `Clientset`, with the client that it embeds, a pointer.
pub record Clientset (R : Type 0) : Type 0 where
  pub networking : Option (NetworkingClient R)

module _ {R : Type 0} where
  -- `RESTClient`
  abbrev pub rest_client : Option (NetworkingClient R) → Option R
  rest_client none = none
  rest_client (some c) = some c.client

  -- `NetworkingV1alpha1`
  abbrev pub networking_v1alpha1 : Option (Clientset R) → Option (NetworkingClient R)
  networking_v1alpha1 none = none
  networking_v1alpha1 (some cs) = cs.networking

  -- `New` of the group's client and of the client set
  abbrev pub new_networking_client : R → NetworkingClient R
  new_networking_client c = record { client = c }

  abbrev pub new_clientset : R → Clientset R
  new_clientset c = record { networking = some (new_networking_client c) }

module _ {S L D F R : Type 0} (V : RestLibrary S L D F R) where
  -- `setConfigDefaults`, which has no error.
  unfoldable pub set_config_defaults : Config S L D F → Config S L D F
  set_config_defaults config = record config {
    group_version = some (alpha_group_name, version);
    api_path = "/apis";
    content_type = "application/json";
    negotiated_serializer = some V.direct_codec_factory;
    user_agent =
        if config.user_agent == "" then V.default_kubernetes_user_agent else config.user_agent;
  }

  client_of : Reply R → Reply (NetworkingClient R)
  client_of (failed e) = failed e
  client_of (reply client) = reply (record { client = client })

  -- `NewForConfig` of the group's client
  unfoldable pub networking_for_config : Config S L D F → Reply (NetworkingClient R)
  unfolding set_config_defaults client_of
  networking_for_config config = client_of (V.rest_client_for (set_config_defaults config))

  or_die : Reply (NetworkingClient R) → Result (NetworkingClient R)
  or_die (failed e) = panic
  or_die (reply client) = ok client

  -- `NewForConfigOrDie` of the group's client
  unfoldable pub networking_for_config_or_die : Config S L D F → Result (NetworkingClient R)
  unfolding networking_for_config or_die
  networking_for_config_or_die config = or_die (networking_for_config config)

  -- The copy of the configuration, with a rate limiter if only its rate is set.
  unfoldable pub rate_limited : Config S L D F → Config S L D F
  rate_limited c =
      if not (is_some c.rate_limiter) && V.is_positive c.qps
      then record c { rate_limiter = some (V.new_token_bucket_rate_limiter c.qps c.burst) }
      else c

  clientset_of : Reply (NetworkingClient R) → Reply (Clientset R)
  clientset_of (failed e) = failed e
  clientset_of (reply client) = reply (record { networking = some client })

  -- `NewForConfig`
  unfoldable pub new_for_config : Config S L D F → Reply (Clientset R)
  unfolding networking_for_config clientset_of rate_limited
  new_for_config c = clientset_of (networking_for_config (rate_limited c))

  clientset_or_die : Result (NetworkingClient R) → Result (Clientset R)
  clientset_or_die (ok client) = ok (record { networking = some client })
  clientset_or_die (err e) = err e
  clientset_or_die panic = panic
  clientset_or_die blocked = blocked

  -- `NewForConfigOrDie`
  unfoldable pub new_for_config_or_die : Config S L D F → Result (Clientset R)
  unfolding networking_for_config_or_die clientset_or_die
  new_for_config_or_die c = clientset_or_die (networking_for_config_or_die c)
