-- ===== src/Validation.antt =====
-- pkg/util/validation/validation.go
use loadbalancer_controller.Common.{String, ◌<>◌, ◌≡◌, ◌↔◌, Bool, true, Option, none, some}
use loadbalancer_controller.Common.{
  List, [], ◌∷◌, any_of, ◌==◌, string_eq, if◌then◌else◌, arith, refl, sym, Bool-cases, inl, inr,
}
use loadbalancer_controller.Common.Effects.{Error, message}
use loadbalancer_controller.Api.{LoadBalancer, IpvsdrProvider, ServiceProvider}
use loadbalancer_controller.Api.{load_balancer_type_internal, load_balancer_type_external}
use mathlib.Core.Bool.{false≢true, Bool-set}
use mathlib.Core.List.{Mem, mem-cons, not-mem-nil}
use mathlib.Core.Logic.Or
use text.Mathlib.TextEquality.{eq_iff}

-- The constants `IpvsScheduler…`.
abbrev pub ipvs_schedulers : List String
ipvs_schedulers = "rr" ∷ "wrr" ∷ "lc" ∷ "wlc" ∷ "lblc" ∷ "dh" ∷ "sh" ∷ []

unfoldable pub is_scheduler : String → Bool
is_scheduler scheduler = any_of (λ s. s == scheduler) ipvs_schedulers

-- The case of an internal load balancer of type `kind`.
unfoldable pub validate_service : String → Option ServiceProvider → Option Error
validate_service kind none =
    some (message (kind <> " type loadbalancer must set servise provider spec"))
validate_service kind (some p) = none

-- `is_ip s` is `net.ParseIP(s) != nil`.
module _ (is_ip : String → Bool) where
  -- The case of an external load balancer.
  unfoldable pub validate_ipvsdr : Option IpvsdrProvider → Option Error
  unfolding is_scheduler
  validate_ipvsdr none = none
  validate_ipvsdr (some p) =
      if is_ip p.vip
      then if is_scheduler p.scheduler
        then none
        else some (message ("ipvsdr: scheduler " <> p.scheduler <> " is invalid"))
      else some (message "ipvsdr: vip is invalid")

  -- `ValidateLoadBalancer`; `none` is a nil error.
  unfoldable pub validate_load_balancer : LoadBalancer → Option Error
  unfolding validate_ipvsdr validate_service
  validate_load_balancer lb =
      if lb.spec.kind == load_balancer_type_internal
      then validate_service lb.spec.kind lb.spec.providers.service
      else if lb.spec.kind == load_balancer_type_external
      then validate_ipvsdr lb.spec.providers.ipvsdr
      else some (message ("Unknown loadbalancer type " <> lb.spec.kind))

-- What the program accepts, as a statement. It is more than the comments of the types allow.
module _ (is_ip : String → Bool) where
  abbrev pub HasValidIpvsdr : Option IpvsdrProvider → Type 0
  HasValidIpvsdr none = Unit
  HasValidIpvsdr (some p) = (is_ip p.vip ≡ true) × (Mem p.scheduler ipvs_schedulers)

  pub data IsValid (lb : LoadBalancer) : Type 0 where
    internal :
        {p : ServiceProvider}
        → lb.spec.kind ≡ "internal"
        → lb.spec.providers.service ≡ some p
        → IsValid lb
    external : lb.spec.kind ≡ "external" → HasValidIpvsdr lb.spec.providers.ipvsdr → IsValid lb

mem_of_any_of : (s : String) (l : List String) → any_of (λ x. x == s) l ≡ true → Mem s l
mem_of_any_of s [] h = absurd (false≢true h)
mem_of_any_of s (x ∷ l) h = elim (Bool-cases (x == s)) [
  | inl e ↦ mem-cons.1 (Or.inl (sym ((eq_iff x s).0 e)))
  | inr e ↦ mem-cons.1 (Or.inr (mem_of_any_of s l (ground arith)))
]

any_of_of_mem : (s : String) (l : List String) → Mem s l → any_of (λ x. x == s) l ≡ true
any_of_of_mem s [] m = absurd (not-mem-nil m)
any_of_of_mem s (x ∷ l) m = elim (Bool-cases (x == s)) [
  | inl e ↦ rw e
  | inr e ↦
      Or.elim (Bool-set _ _) (mem-cons.0 m) (λ p. ground (arith, eq_iff x s))
        (λ r. ground (arith, any_of_of_mem s l r))
]

module _ (is_ip : String → Bool) where
  validate_ipvsdr_iff :
      (o : Option IpvsdrProvider) → (validate_ipvsdr is_ip o ≡ none) ↔ HasValidIpvsdr is_ip o
  unfolding validate_ipvsdr
  validate_ipvsdr_iff none = (λ h. tt, λ v. refl)
  validate_ipvsdr_iff (some p) = (
    λ h. (ground arith, mem_of_any_of p.scheduler ipvs_schedulers (ground arith)),
    λ v. rw (v.0, any_of_of_mem p.scheduler ipvs_schedulers v.1),
  )

  accepted_service :
      (kind : String) (o : Option ServiceProvider)
      → validate_service kind o ≡ none
      → (p : ServiceProvider) × (o ≡ some p)
  unfolding validate_service
  accepted_service kind none h = cc
  accepted_service kind (some p) h = (p, refl)

  accepted-IsValid : (lb : LoadBalancer) → validate_load_balancer is_ip lb ≡ none → IsValid is_ip lb
  unfolding validate_load_balancer
  accepted-IsValid lb h = elim (Bool-cases (lb.spec.kind == "internal")) [
    | inl i ↦
        let (p, e) = accepted_service lb.spec.kind lb.spec.providers.service (ground arith) in
        internal ((eq_iff _ _).0 i) e
    | inr i ↦ elim (Bool-cases (lb.spec.kind == "external")) [
      | inl x ↦
          external ((eq_iff _ _).0 x)
            ((validate_ipvsdr_iff lb.spec.providers.ipvsdr).0 (ground arith))
      | inr x ↦ cc (rw (i, x) at h)
    ]
  ]

  IsValid-accepted : (lb : LoadBalancer) → IsValid is_ip lb → validate_load_balancer is_ip lb ≡ none
  unfolding validate_load_balancer
  IsValid-accepted lb (internal e s) = rw (e, s)
  IsValid-accepted lb (external e v) = rw e ((validate_ipvsdr_iff lb.spec.providers.ipvsdr).1 v)

  -- `ValidateLoadBalancer` returns nil exactly for an internal load balancer with a service
  -- provider, and for an external one whose ipvsdr provider, if any, has an IP address and one of
  -- the seven schedulers. Other providers beside these, and the nodes, are not looked at.
  pub validate_load_balancer_iff :
      (lb : LoadBalancer) → (validate_load_balancer is_ip lb ≡ none) ↔ IsValid is_ip lb
  validate_load_balancer_iff lb = (accepted-IsValid lb, IsValid-accepted lb)
