-- ===== src/Nginx/ConfigMaps/Merge.antt =====
-- What merge of proxy/proxies/nginx/config.go finds at a key.
use loadbalancer_controller.Common.{
  String, Option, none, some, ◌≡◌, refl, ap, ◌∙◌, Bool-cases, inl, inr,
}
use loadbalancer_controller.Common.{[], ◌∷◌, All, All-mono, ◌==◌, string_eq}
use loadbalancer_controller.Common.GoMap.{
  Entries, GoMap, entries, get, lookup, insert, lookup-insert,
}
use loadbalancer_controller.Nginx.ConfigMaps.{write_all, merge}
use mathlib.Core.Path.{subst}
use text.Mathlib.TextEquality.{eq_iff}

-- No key occurs twice.
abbrev pub HasDistinctKeys : Entries → Type 0
HasDistinctKeys [] = Unit
HasDistinctKeys ((k, v) ∷ es) = (lookup k es ≡ none) × HasDistinctKeys es

-- The value, or else the other one.
abbrev pub or_else : Option String → Option String → Option String
or_else none other = other
or_else (some v) other = some v

or_else-none : (o : Option String) → or_else o none ≡ o
or_else-none none = refl
or_else-none (some v) = refl

pub lookup-write_all :
    (es m : Entries) (key : String)
    → HasDistinctKeys es
    → lookup key (write_all es m) ≡ or_else (lookup key es) (lookup key m)
unfolding write_all lookup
lookup-write_all [] m key d = refl
lookup-write_all ((k, v) ∷ es) m key d = elim (Bool-cases (k == key)) [
  | inl same ↦
      let at : k ≡ key = (eq_iff k key).0 same in
      let fresh : lookup key es ≡ none = subst (λ j. lookup j es ≡ none) at d.0 in
      lookup-write_all es (insert k v m) key d.1 ∙ rw (fresh, lookup-insert m k v key, same)
  | inr differ ↦ lookup-write_all es (insert k v m) key d.1 ∙ rw (lookup-insert m k v key, differ)
]

-- In the merged map of two maps, in neither of which a key occurs twice, a key has the value of
-- the second map, or else that of the first.
pub get-merge :
    (dst src : GoMap) (key : String)
    → HasDistinctKeys (entries dst)
    → HasDistinctKeys (entries src)
    → get key (merge dst src) ≡ or_else (get key src) (get key dst)
unfolding merge lookup
get-merge dst src key d s =
    lookup-write_all (entries src) (write_all (entries dst) []) key s
    ∙ rw (lookup-write_all (entries dst) [] key d, or_else-none (lookup key (entries dst))) refl

-- Writing entries that are there already changes nothing.
insert_same : (key v : String) (m : Entries) → lookup key m ≡ some v → insert key v m ≡ m
unfolding insert lookup
insert_same key v [] e = cc
insert_same key v ((first, x) ∷ m) e = elim (Bool-cases (first == key)) [
  | inl same ↦
      let at : first ≡ key = (eq_iff first key).0 same in
      let found : some x ≡ some v = rw same at e in rw same (cc (at, found))
  | inr differ ↦ rw differ (ap (λ l. (first, x) ∷ l) (insert_same key v m (rw differ at e)))
]

abbrev pub Holds : Entries → Entries → Type 0
Holds es m = All (λ e. lookup e.0 m ≡ some e.1) es

write_all_same : (es m : Entries) → Holds es m → write_all es m ≡ m
unfolding write_all
write_all_same [] m h = refl
write_all_same ((k, v) ∷ es) m h = rw (insert_same k v m h.0) (write_all_same es m h.1)

lookup-older :
    (k v key w : String) (es : Entries)
    → lookup k es ≡ none
    → lookup key es ≡ some w
    → lookup key ((k, v) ∷ es) ≡ some w
unfolding lookup
lookup-older k v key w es fresh p = elim (Bool-cases (k == key)) [
  | inl same ↦ let at : k ≡ key = (eq_iff k key).0 same in cc
  | inr differ ↦ rw differ p
]

Holds-own : (es : Entries) → HasDistinctKeys es → Holds es es
unfolding lookup
Holds-own [] d = tt
Holds-own ((k, v) ∷ es) d = (
  rw ((eq_iff k k).1 refl) refl,
  All-mono es (λ e p. lookup-older k v e.0 e.1 es d.0 p) (Holds-own es d.1),
)

-- A second round of the same writes changes nothing.
pub write_all-again :
    (es m : Entries) → HasDistinctKeys es → write_all es (write_all es m) ≡ write_all es m
write_all-again es m d =
    write_all_same es (write_all es m)
      (All-mono es (λ e p. lookup-write_all es m e.0 d ∙ rw p refl) (Holds-own es d))
