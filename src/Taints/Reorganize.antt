-- ===== src/Taints/Reorganize.antt =====
-- What ReorganizeTaints of pkg/util/taints/taints.go leaves on a node.
use loadbalancer_controller.Common.{String, ◌≡◌, refl, sym, ◌∙◌, ap, Bool, false, not, ◌&&◌}
use loadbalancer_controller.Common.{List, [], ◌∷◌, ◌++◌, any_of, items, keep_if, All, ◌==◌}
use loadbalancer_controller.Common.{string_eq, arith, Bool-cases, inl, inr}
use loadbalancer_controller.Common.{any_of-append, keep_if_cong, keep_if-id}
use loadbalancer_controller.Common.{All-keep_if, All-mono, All-intro, keep_if-All}
use loadbalancer_controller.Api.{Taint, Node}
use loadbalancer_controller.Cluster.{Library, HasTaintHelpers}
use loadbalancer_controller.Taints.{add_taints, delete_taints, reorganize_taints}
use text.Mathlib.TextPositions.{eq_refl}
use mathlib.Core.List.{append_assoc, append-nil}

-- No taint of the list matches a later one.
abbrev pub AreDistinct : Library → List Taint → Type 0
AreDistinct L [] = Unit
AreDistinct L (t ∷ ts) = All (λ u. L.match_taint t u ≡ false) ts × AreDistinct L ts

module _ (L : Library) where
  abbrev unmatched : List Taint → Taint → Bool
  unmatched new o = not (any_of (λ t. L.match_taint t o) new)

  unmatched-append :
      (new : List Taint) (o : Taint) (olds : List Taint)
      → All (λ u. L.match_taint o u ≡ false) olds
      → All (λ u. unmatched (new ++ o ∷ []) u ≡ unmatched new u) olds
  unmatched-append new o olds h =
      All-mono olds (λ u m. ground (arith, any_of-append (λ t. L.match_taint t u) new (o ∷ []))) h

  -- The old taints that no new one matches follow the new ones, in their order.
  pub add_taints_lem :
      (olds new : List Taint)
      → AreDistinct L olds
      → add_taints L olds new ≡ new ++ keep_if (unmatched new) olds
  unfolding add_taints
  add_taints_lem [] new d = sym (append-nil new)
  add_taints_lem (o ∷ olds) new d = elim (Bool-cases (any_of (λ t. L.match_taint t o) new)) [
    | inl old ↦ rw old (add_taints_lem olds new d.1)
    | inr fresh ↦ rw fresh (
        add_taints_lem olds (new ++ o ∷ []) d.1
        ∙ (rw (keep_if_cong _ _ olds (unmatched-append new o olds d.0)) (append_assoc new _ _)))
  ]

module _ (L : Library) (H : HasTaintHelpers L) (node : Node) (overwrite : Bool) where
  reorganize_taints-list :
      (to_add to_remove : List Taint)
      → (reorganize_taints L node overwrite to_add to_remove).1
        ≡ (delete_taints L to_remove [] false (add_taints L (items node.taints) to_add)).2
  unfolding reorganize_taints
  reorganize_taints-list to_add to_remove = ground arith

  -- From a node whose taints have distinct keys and effects, with nothing to add and one key to
  -- delete, exactly the taints of that key go.
  pub reorganize_taints-delete_key :
      (k v : String)
      → AreDistinct L (items node.taints)
      → (reorganize_taints L node overwrite [] (record { key = k; value = v; effect = "" } ∷ [])).1
        ≡ keep_if (λ u. not (k == u.key)) (items node.taints)
  unfolding reorganize_taints
  reorganize_taints-delete_key k v d =
      reorganize_taints-list [] (record { key = k; value = v; effect = "" } ∷ [])
      ∙ rw (add_taints_lem L (items node.taints) [] d, H.delete_taints_by_key_lem)
          (ap (keep_if (λ u. not (k == u.key)))
            (keep_if-id (unmatched L []) _ (All-intro _ (λ _. refl))))

  -- On a node whose taints have distinct keys and effects, with one taint to add and none to
  -- delete, the new taint comes first, and the old taints of its key and effect go.
  pub reorganize_taints-add :
      (t : Taint)
      → AreDistinct L (items node.taints)
      → (reorganize_taints L node overwrite (t ∷ []) []).1
        ≡ t ∷ keep_if (λ u. not (t.key == u.key && t.effect == u.effect)) (items node.taints)
  unfolding reorganize_taints
  reorganize_taints-add t d =
      reorganize_taints-list (t ∷ []) []
      ∙ rw (add_taints_lem L (items node.taints) (t ∷ []) d) (
          ap (λ l. t ∷ l)
            (keep_if_cong _ _ (items node.taints)
              (All-intro _ (λ u. ground (arith, H.match_taint_lem t u)))))

module _ (L : Library) where
  pub keep_if-AreDistinct :
      (p : Taint → Bool) (ts : List Taint) → AreDistinct L ts → AreDistinct L (keep_if p ts)
  keep_if-AreDistinct p [] d = tt
  keep_if-AreDistinct p (t ∷ ts) d = elim (Bool-cases (p t)) [
    | inl kept ↦ rw kept (keep_if-All _ p ts d.0, keep_if-AreDistinct p ts d.1)
    | inr gone ↦ rw gone (keep_if-AreDistinct p ts d.1)
  ]

module _ (L : Library) (H : HasTaintHelpers L) where
  abbrev same_slot : Taint → Taint → Bool
  same_slot t u = t.key == u.key && t.effect == u.effect

  add-AreDistinct :
      (t : Taint) (ts : List Taint)
      → AreDistinct L ts
      → AreDistinct L (t ∷ keep_if (λ u. not (same_slot t u)) ts)
  add-AreDistinct t ts d = (
    All-mono _ (λ u m. ground (arith, H.match_taint_lem t u))
        (All-keep_if (λ u. not (same_slot t u)) ts),
    keep_if-AreDistinct L (λ u. not (same_slot t u)) ts d,
  )

  -- A taint is added to a node whose taints have distinct keys and effects. Adding it again to a
  -- node that holds the result gives the same list.
  pub reorganize_taints-add_twice :
      (t : Taint) (node again : Node) (w w' : Bool)
      → AreDistinct L (items node.taints)
      → items again.taints ≡ (reorganize_taints L node w (t ∷ []) []).1
      → (reorganize_taints L again w' (t ∷ []) []).1 ≡ (reorganize_taints L node w (t ∷ []) []).1
  reorganize_taints-add_twice t node again w w' d e =
      let kept = keep_if (λ u. not (same_slot t u)) (items node.taints) in
      let first = reorganize_taints-add L H node w t d in
      let held : items again.taints ≡ t ∷ kept = e ∙ first in
      reorganize_taints-add L H again w' t (rw held (add-AreDistinct t _ d))
      ∙ rw (held, first, eq_refl t.key, eq_refl t.effect)
          (ap (λ l. t ∷ l) (keep_if-id _ _ (All-keep_if _ (items node.taints))))
