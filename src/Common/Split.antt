-- ===== src/Common/Split.antt =====
-- `strings.Split` at one character, and `strings.Join`.
use Prim.Native.Char.{Char, code}
use Prim.Native.String.{String, ◌++◌ as ◌<>◌}
use mathlib.Core.Path.{◌≡◌, refl}
use mathlib.Core.Logic.{inl, inr}
use mathlib.Core.List.{List, [], ◌∷◌}
use text.Mathlib.TextEquality.{Char-path}
use text.Mathlib.TextLemmas.{nil-append, cons-append}
use loadbalancer_controller.Common.Logic.{if◌then◌else◌, Bool-cases}
use loadbalancer_controller.Common.Equality.{◌==◌, nat_eq}

-- The character goes before the first part.
unfoldable pub extend : Char → List String → List String
extend c [] = []
extend c (p ∷ ps) = String.◌∷◌ c p ∷ ps

-- `strings.Split(s, sep)`
unfoldable pub split : Char → String → List String
unfolding extend
split sep String.[] = "" ∷ []
split sep (String.◌∷◌ c s) =
    let parts = split sep s in if code c == code sep then "" ∷ parts else extend c parts

-- `strings.Join(parts, sep)`
unfoldable pub join : Char → List String → String
join sep [] = ""
join sep (p ∷ []) = p
join sep (p ∷ q ∷ ps) = let rest = join sep (q ∷ ps) in p <> String.◌∷◌ sep rest

-- A text has at least one part.
pub split_cons :
    (sep : Char) (s : String) → (p : String) × (ps : List String) × (split sep s ≡ p ∷ ps)
unfolding split
split_cons sep String.[] = ("", [], refl)
split_cons sep (String.◌∷◌ c s) =
    let (p, ps, e) = split_cons sep s in
    elim (Bool-cases (code c == code sep)) [
      | inl same ↦ ("", split sep s, rw same)
      | inr other ↦ (String.◌∷◌ c p, ps, rw (other, e))
    ]

join_empty :
    (sep : Char) (p : String) (ps : List String)
    → join sep ("" ∷ p ∷ ps) ≡ String.◌∷◌ sep (join sep (p ∷ ps))
unfolding join
join_empty sep p ps = nil-append _

join-extend :
    (sep c : Char) (p : String) (ps : List String)
    → join sep (String.◌∷◌ c p ∷ ps) ≡ String.◌∷◌ c (join sep (p ∷ ps))
unfolding join
join-extend sep c p [] = refl
join-extend sep c p (q ∷ ps) = cons-append c p _

-- A text is its parts, joined again.
pub join-split : (sep : Char) (s : String) → join sep (split sep s) ≡ s
unfolding split join
join-split sep String.[] = refl
join-split sep (String.◌∷◌ c s) =
    let (p, ps, e) = split_cons sep s in
    let rest : join sep (p ∷ ps) ≡ s = rw (← e) (join-split sep s) in
    elim (Bool-cases (code c == code sep)) [
      | inl same ↦
          rw
            (
              same,
              e,
              join_empty sep p ps,
              rest,
              Char-path c sep ((nat_eq.equals_iff (code c) (code sep)).0 same),
            )
            refl
      | inr other ↦ rw (other, e, join-extend sep c p ps, rest) refl
    ]
