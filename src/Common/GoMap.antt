-- ===== src/Common/GoMap.antt =====
-- Go's `map[string]string` as an association list, its nil value apart.
use mathlib.Core.Path.{◌≡◌, refl}
use mathlib.Core.Bool.{Bool, true, false, ◌&&◌}
use mathlib.Core.Option.{Option, none, some}
use mathlib.Core.List.{List, [], ◌∷◌}
use native.Mathlib.Omega.{arith}
use Prim.Native.String.{String}
use text.Mathlib.TextEquality.{eq_iff}
use loadbalancer_controller.Common.Logic.{if◌then◌else◌}
use loadbalancer_controller.Common.Equality.{◌==◌, string_eq}

abbrev pub Entries : Type 0
Entries = List (String × String)

-- `none` is a nil map. It reads as an empty one, and a write to it panics.
abbrev pub GoMap : Type 0
GoMap = Option Entries

unfoldable pub lookup : String → Entries → Option String
lookup k [] = none
lookup k ((j, v) ∷ m) = if j == k then some v else lookup k m

unfoldable pub insert : String → String → Entries → Entries
insert key w [] = (key, w) ∷ []
insert key w ((first, x) ∷ rest) =
    if first == key then (key, w) ∷ rest else (first, x) ∷ insert key w rest

unfoldable pub erase : String → Entries → Entries
erase k [] = []
erase k ((j, w) ∷ m) = let rest = erase k m in if j == k then rest else (j, w) ∷ rest

-- What is found at any key after a write.
pub lookup-insert :
    (m : Entries) (key w other : String)
    → lookup other (insert key w m) ≡ (if key == other then some w else lookup other m)
unfolding lookup insert
lookup-insert [] key w other = refl
lookup-insert ((first, x) ∷ m) key w other =
    let rest = lookup-insert m key w other in
    ground (arith, rest, eq_iff first other, eq_iff first key, eq_iff key other)

-- What is found at any key after a deletion.
pub lookup-erase :
    (m : Entries) (key other : String)
    → lookup other (erase key m) ≡ (if key == other then none else lookup other m)
unfolding lookup erase
lookup-erase [] key other = ground arith
lookup-erase ((first, x) ∷ m) key other =
    let rest = lookup-erase m key other in
    ground (arith, rest, eq_iff first other, eq_iff first key, eq_iff key other)

-- The entries of a map; a nil map has none.
abbrev pub entries : GoMap → Entries
entries none = []
entries (some m) = m

abbrev pub get : String → GoMap → Option String
get k m = lookup k (entries m)

-- `delete(m, k)`: nothing happens on a nil map.
unfoldable pub delete : String → GoMap → GoMap
delete k none = none
delete k (some m) = some (erase k m)

option_eq : Option String → Option String → Bool
option_eq none none = true
option_eq none (some b) = false
option_eq (some a) none = false
option_eq (some a) (some b) = a == b

-- Every entry of the first is found in the second.
included : Entries → Entries → Entries → Bool
unfolding option_eq lookup
included whole [] n = true
included whole ((k, v) ∷ m) n = option_eq (lookup k whole) (lookup k n) && included whole m n

-- `reflect.DeepEqual` on maps: both nil, or both not nil with the same value at each key.
unfoldable pub deep_equal : GoMap → GoMap → Bool
unfolding included
deep_equal none none = true
deep_equal none (some n) = false
deep_equal (some m) none = false
deep_equal (some m) (some n) = included m m n && included n n m

option_eq_iff : (a b : Option String) → (option_eq a b ≡ true) → a ≡ b
unfolding option_eq
option_eq_iff none none h = refl
option_eq_iff none (some b) h = cc
option_eq_iff (some a) none h = cc
option_eq_iff (some a) (some b) h = cc ((eq_iff a b).0 h)

option_eq_refl : (a : Option String) → option_eq a a ≡ true
unfolding option_eq
option_eq_refl none = refl
option_eq_refl (some a) = (eq_iff a a).1 refl

included_refl : (whole m : Entries) → included whole m whole ≡ true
unfolding included
included_refl whole [] = refl
included_refl whole ((k, v) ∷ m) =
    ground (arith, option_eq_refl (lookup k whole), included_refl whole m)

pub deep_equal_refl : (m : GoMap) → deep_equal m m ≡ true
unfolding deep_equal
deep_equal_refl none = refl
deep_equal_refl (some m) = ground (arith, included_refl m m)

-- A second write of the same entry changes nothing.
pub insert-insert : (key w : String) (m : Entries) → insert key w (insert key w m) ≡ insert key w m
unfolding insert
insert-insert key w [] = rw ((eq_iff key key).1 refl)
insert-insert key w ((first, x) ∷ m) =
    ground (arith, (eq_iff key key).1 refl, insert-insert key w m)

-- Nor does a second deletion of the same key.
pub erase-erase : (key : String) (m : Entries) → erase key (erase key m) ≡ erase key m
unfolding erase
erase-erase key [] = refl
erase-erase key ((first, x) ∷ m) = ground (arith, erase-erase key m)
