-- ===== src/Common/Table.antt =====
-- Go maps whose keys have a test of equality, as association lists.
use mathlib.Core.Path.{◌≡◌, refl}
use mathlib.Core.Bool.{Bool, true, not, ◌&&◌}
use mathlib.Core.Option.{Option, none, some}
use mathlib.Core.List.{List, [], ◌∷◌}
use native.Mathlib.Omega.{arith}
use loadbalancer_controller.Common.Logic.{if◌then◌else◌, is_some}
use loadbalancer_controller.Common.Equality.{Eq, ◌==◌}

module _ {ℓ κ} {T : Type ℓ} {V : Type κ} ⦃c : Eq T⦄ where
  -- `m[key]`
  unfoldable pub find : T → List (T × V) → Option V
  find key [] = none
  find key ((first, value) ∷ m) = let rest = find key m in if first == key then some value else rest

  -- `m[key] = value`
  unfoldable pub put : T → V → List (T × V) → List (T × V)
  put key value [] = (key, value) ∷ []
  put key value ((first, old) ∷ m) =
      let rest = put key value m in if first == key then (key, value) ∷ m else (first, old) ∷ rest

  -- What is found at any key after a write.
  pub find-put :
      (m : List (T × V)) (key other : T) (value : V)
      → find other (put key value m) ≡ (if key == other then some value else find other m)
  unfolding find put
  find-put [] key other value = refl
  find-put ((first, old) ∷ m) key other value =
      let rest = find-put m key other value in
      ground (arith, rest, c.equals_iff first other, c.equals_iff first key, c.equals_iff key other)

  -- No key stands twice.
  abbrev pub HasUniqueKeys : List (T × V) → Type κ
  HasUniqueKeys [] = Unit
  HasUniqueKeys ((key, value) ∷ m) = (find key m ≡ none) × HasUniqueKeys m

  -- The test that no key stands twice.
  unfoldable pub are_unique : List (T × V) → Bool
  unfolding find
  are_unique [] = true
  are_unique ((key, value) ∷ m) = not (is_some (find key m)) && are_unique m

  pub are_unique-HasUniqueKeys : (m : List (T × V)) → (are_unique m ≡ true) → HasUniqueKeys m
  unfolding are_unique
  are_unique-HasUniqueKeys [] h = tt
  are_unique-HasUniqueKeys ((key, value) ∷ m) h = ground (arith, h, are_unique-HasUniqueKeys m)

  -- The order in which a `range` visits the entries of a map: each once.
  abbrev pub IsListing : List (T × V) → List (T × V) → Type (ℓ ⊔ κ)
  IsListing order m = HasUniqueKeys order × ((key : T) → find key order ≡ find key m)

module _ {ℓ κ} {T : Type ℓ} {V : Type κ} where
  abbrev pub swapped : List (T × V) → List (V × T)
  swapped [] = []
  swapped ((key, value) ∷ m) = (value, key) ∷ swapped m

  -- Where no value stands twice, what is found at a key leads back to the key.
  pub find-swapped :
      ⦃c : Eq T⦄
      → ⦃d : Eq V⦄ → (m : List (T × V)) (key : T) (value : V) → HasUniqueKeys (swapped m)
      → (find key m ≡ some value)
      → find value (swapped m) ≡ some key
  unfolding find
  find-swapped ⦃c⦄ ⦃d⦄ [] key value u h = cc
  find-swapped ⦃c⦄ ⦃d⦄ ((first, w) ∷ m) key value u h =
      let rest = find-swapped m key value u.1 in
      ground (arith, rest, h, u.0, c.equals_iff first key, d.equals_iff w value)
