-- ===== src/Nginx/Ensure/Again.antt =====
-- A second run of ensureDeployment of proxy/proxies/nginx/nginx.go.
use loadbalancer_controller.Common.{
  ℕ, Bool, true, false, some, ◌≡◌, refl, ◌∙◌, Bool-cases, inl, inr,
}
use loadbalancer_controller.Common.{List, [], ◌∷◌, length, All, ◌==◌, string_eq, nat_eq}
use loadbalancer_controller.Common.Effects.{ok}
use loadbalancer_controller.Common.GoMap.{Entries, GoMap, entries, deep_equal_refl}
use loadbalancer_controller.Common.Labels.{with_labels}
use loadbalancer_controller.Api.{Deployment, Container, Affinity, node_affinity_eq}
use loadbalancer_controller.LbUtil.Copies.{deployment_deep_copy_lem}
use loadbalancer_controller.Cluster.{Library, HasDeepCopy, Call}
use loadbalancer_controller.Nginx.ConfigMaps.{write_all}
use loadbalancer_controller.Nginx.ConfigMaps.Merge.{HasDistinctKeys, write_all-again}
use loadbalancer_controller.Nginx.Ensure.{
  is_same_in, any_changed, containers_changed, corrected, is_changed, ensure_deployment,
}
use text.Mathlib.TextEquality.{eq_iff}

with_labels-write_all :
    (es m : Entries) (h : List Call) → with_labels es (some m) h ≡ (ok (some (write_all es m)), h)
unfolding with_labels write_all
with_labels-write_all [] m h = refl
with_labels-write_all (e ∷ es) m h = with_labels-write_all es _ h

-- No container has the name of a later one.
abbrev pub HasDistinctContainers : List Container → Type 0
HasDistinctContainers [] = Unit
HasDistinctContainers (c ∷ cs) = All (λ d. (d.name == c.name) ≡ false) cs × HasDistinctContainers cs

abbrev AreSame : List Container → List Container → Type 0
AreSame cs old = All (λ c. is_same_in c old ≡ true) cs

AreSame-unchanged : (cs old : List Container) → AreSame cs old → any_changed cs old ≡ false
unfolding any_changed
AreSame-unchanged [] old a = refl
AreSame-unchanged (c ∷ cs) old a = rw (a.0, AreSame-unchanged cs old a.1) refl

AreSame-cons :
    (c : Container) (cs old : List Container)
    → All (λ d. (d.name == c.name) ≡ false) cs
    → AreSame cs old
    → AreSame cs (c ∷ old)
unfolding is_same_in
AreSame-cons c [] old f a = tt
AreSame-cons c (d ∷ cs) old f a = (rw f.0 a.0, AreSame-cons c cs old f.1 a.1)

AreSame-own : (cs : List Container) → HasDistinctContainers cs → AreSame cs cs
unfolding is_same_in
AreSame-own [] d = tt
AreSame-own (c ∷ cs) d = (
  rw ((eq_iff c.name c.name).1 refl) ((eq_iff c.image c.image).1 refl),
  AreSame-cons c cs cs d.0 (AreSame-own cs d.1),
)

pub containers_changed-own :
    (cs : List Container) → HasDistinctContainers cs → containers_changed cs cs ≡ false
unfolding containers_changed
containers_changed-own cs d =
    rw ((nat_eq.equals_iff (length cs) (length cs)).1 refl)
      (AreSame-unchanged cs cs (AreSame-own cs d))

module _ (L : Library) (D : HasDeepCopy L) (desired old : Deployment) where
  -- The containers that are wanted, or the old ones where they do not differ.
  containers_changed-corrected :
      (labels : GoMap) (a b : Affinity)
      → HasDistinctContainers desired.template.spec.containers
      → containers_changed desired.template.spec.containers
          (corrected desired old labels a b).template.spec.containers
        ≡ false
  unfolding corrected
  containers_changed-corrected labels a b d =
      elim (Bool-cases
        (containers_changed desired.template.spec.containers old.template.spec.containers)) [
          | inl changed ↦ rw changed (containers_changed-own desired.template.spec.containers d)
          | inr same ↦ rw (same, same)
        ]

  corrected-again :
      (labels : GoMap) (a b : Affinity)
      → HasDistinctContainers desired.template.spec.containers
      → let copy = corrected desired old labels b a in
        corrected desired copy labels (record b { node_affinity = a.node_affinity }) a ≡ copy
  unfolding corrected
  corrected-again labels a b d = rw (containers_changed-corrected labels b a d) refl

  is_changed-again :
      (labels : GoMap) (a b : Affinity) (n : ℕ)
      → HasDistinctContainers desired.template.spec.containers
      → let copy = corrected desired old labels b a in
        is_changed desired copy copy labels (record b { node_affinity = a.node_affinity }) a n n
        ≡ false
  unfolding is_changed corrected
  is_changed-again labels a b n d =
      rw
        (
          deep_equal_refl labels,
          (nat_eq.equals_iff n n).1 refl,
          (node_affinity_eq.equals_iff a.node_affinity a.node_affinity).1 refl,
        )
        (containers_changed-corrected labels b a d)

module _ (L : Library) (D : HasDeepCopy L) (desired : Deployment) where
  pub ensure_deployment_lem :
      (old : Deployment) (m : Entries) (n r : ℕ) (a b : Affinity) (h : List Call)
      → desired.replicas ≡ some n
      → desired.template.spec.affinity ≡ some a
      → old.labels ≡ some m
      → old.replicas ≡ some r
      → old.template.spec.affinity ≡ some b
      → let labels = some (write_all (entries desired.labels) m) in
        ensure_deployment L desired old h
        ≡ (ok (corrected desired old labels b a, is_changed desired old old labels b a n r), h)
  unfolding ensure_deployment
  ensure_deployment_lem old m n r a b h en ea om or ob =
      rw
        (
          deployment_deep_copy_lem L D old,
          en,
          ea,
          om,
          or,
          ob,
          with_labels-write_all (entries desired.labels) m h,
        )
        refl

  -- If the old deployment has labels, replicas and an affinity, as has the desired one, whose label
  -- keys and container names are distinct, then `ensureDeployment` returns a deployment that a second
  -- run leaves as it is and reports as not changed.
  pub ensure_deployment-again :
      (old : Deployment) (m : Entries) (n r : ℕ) (a b : Affinity) (h h' : List Call)
      → HasDistinctKeys (entries desired.labels)
      → HasDistinctContainers desired.template.spec.containers
      → desired.replicas ≡ some n
      → desired.template.spec.affinity ≡ some a
      → old.labels ≡ some m
      → old.replicas ≡ some r
      → old.template.spec.affinity ≡ some b
      → (copy : Deployment) × (changed : Bool) × (ensure_deployment L desired old h
          ≡ (ok (copy, changed), h))
        × (ensure_deployment L desired copy h' ≡ (ok (copy, false), h'))
  unfolding corrected
  ensure_deployment-again old m n r a b h h' dk dc en ea om or ob =
      let labels = write_all (entries desired.labels) m in
      let copy = corrected desired old (some labels) b a in
      (
        copy,
        is_changed desired old old (some labels) b a n r,
        ensure_deployment_lem old m n r a b h en ea om or ob,
        ensure_deployment_lem copy labels n n a (record b { node_affinity = a.node_affinity }) h' en
              ea refl en refl
            ∙ rw
                (
                  write_all-again (entries desired.labels) m dk,
                  corrected-again L D desired old (some labels) a b dc,
                  is_changed-again L D desired old (some labels) a b n dc,
                )
                refl,
      )
