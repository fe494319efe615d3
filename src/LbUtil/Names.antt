-- ===== src/LbUtil/Names.antt =====
-- SplitNamespaceAndNameByDot of pkg/util/lb/lb.go, and the label values that it reads.
use Prim.Native.Char.{code}
use Prim.Native.String.{String}
use loadbalancer_controller.Common.{◌≡◌, refl, ◌<>◌, Bool, true, false, not, ◌&&◌, List, [], ◌∷◌}
use loadbalancer_controller.Common.{◌==◌, nat_eq, if◌then◌else◌, arith, Bool-cases, inl, inr, sym}
use loadbalancer_controller.Common.Split.{split, split_cons}
use loadbalancer_controller.Common.Effects.{message, Reply, reply, failed}
use loadbalancer_controller.Api.{created_by}
use mathlib.Core.Bool.{false≢true}
use text.Mathlib.TextLemmas.{nil-append, cons-append}

-- `strings.Split(value, ".")`
abbrev pub split_dot : String → List String
split_dot = split "."

-- `quote` is `fmt.Sprintf("%q", s)`.
unfoldable pub two_parts : (String → String) → String → List String → Reply (String × String)
two_parts quote value (namespace ∷ name ∷ []) = reply (namespace, name)
two_parts quote value _ = failed (message ("unexpected format: " <> quote value))

-- `SplitNamespaceAndNameByDot`
unfoldable pub split_namespace_and_name_by_dot :
    (String → String) → String → Reply (String × String)
unfolding split two_parts
split_namespace_and_name_by_dot quote value = two_parts quote value (split_dot value)

-- No character of the text is a dot.
unfoldable pub no_dot : String → Bool
no_dot String.[] = true
no_dot (String.◌∷◌ c s) = not (code c == b'.') && no_dot s

dot-append : (t : String) → split_dot ("." <> t) ≡ "" ∷ split_dot t
unfolding split
dot-append t = rw (cons-append, nil-append)

split_dot_prefix : (s t : String) → no_dot s ≡ true → split_dot (s <> "." <> t) ≡ s ∷ split_dot t
unfolding split no_dot
split_dot_prefix String.[] t h = rw nil-append (dot-append t)
split_dot_prefix (String.◌∷◌ c s) t h = rw cons-append (ground (arith, split_dot_prefix s t))

split_dot_whole : (s : String) → no_dot s ≡ true → split_dot s ≡ s ∷ []
unfolding split no_dot
split_dot_whole String.[] h = refl
split_dot_whole (String.◌∷◌ c s) h = ground (arith, split_dot_whole s)

split_dot_dotted :
    (s : String)
    → no_dot s ≡ false
    → (p : String) × (q : String) × (ps : List String) × (split_dot s ≡ p ∷ q ∷ ps)
unfolding split no_dot
split_dot_dotted String.[] h = absurd (false≢true (sym h))
split_dot_dotted (String.◌∷◌ c s) h = elim (Bool-cases (code c == b'.')) [
  | inl dot ↦ let (p, ps, e) = split_cons "." s in ("", p, ps, rw (dot, e))
  | inr other ↦
      let (p, q, ps, e) = split_dot_dotted s (rw other at h) in
      (String.◌∷◌ c p, q, ps, rw (other, e))
]

-- The label value of a load balancer whose namespace has no dot is split into its namespace and
-- name if the name has no dot, and is refused if it has one.
pub split-created_by :
    (quote : String → String) (namespace name : String)
    → no_dot namespace ≡ true
    → split_namespace_and_name_by_dot quote (created_by namespace name) ≡ (
        if no_dot name
        then reply (namespace, name)
        else failed (message ("unexpected format: " <> quote (created_by namespace name))))
unfolding split_namespace_and_name_by_dot created_by
split-created_by quote namespace name h = elim (Bool-cases (no_dot name)) [
  | inl plain ↦ rw (plain, split_dot_prefix namespace name h, split_dot_whole name plain)
  | inr dotted ↦
      let (p, q, ps, e) = split_dot_dotted name dotted in
      rw (dotted, split_dot_prefix namespace name h, e)
]
