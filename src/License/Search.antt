-- ===== src/License/Search.antt =====
-- What hack/license/main.go uses of Go's bytes, strings and filepath packages, on lists of bytes.
use Prim.Native.Char.{code}
use mathlib.Core.List.{reverse}
use mathlib.Core.Option
use loadbalancer_controller.Common.{
  ℕ, zero, suc, ◌≤◌, String, Bool, true, false, ◌&&◌, Option, none, some, List, [], ◌∷◌, ◌++◌, ◌≡◌,
  ◌↔◌, refl, length, arith, ap,
}
use loadbalancer_controller.Common.{Eq, nat_eq, ◌==◌, if◌then◌else◌, is_some}

abbrev pub Bytes : Type 0
Bytes = List ℕ

abbrev pub bytes_equal : Bytes → Bytes → Bool
bytes_equal [] [] = true
bytes_equal [] (y ∷ ys) = false
bytes_equal (x ∷ xs) [] = false
bytes_equal (x ∷ xs) (y ∷ ys) = (x == y) && bytes_equal xs ys

pub bytes_equal_iff : (xs ys : Bytes) → (bytes_equal xs ys ≡ true) ↔ (xs ≡ ys)
bytes_equal_iff [] [] = (λ h. refl, λ h. refl)
bytes_equal_iff [] (y ∷ ys) = (λ h. cc, λ h. cc)
bytes_equal_iff (x ∷ xs) [] = (λ h. cc, λ h. cc)
bytes_equal_iff (x ∷ xs) (y ∷ ys) = ground (arith, bytes_equal_iff xs ys)

instance abbrev pub bytes_eq : Eq Bytes
bytes_eq = record { equals = bytes_equal; equals_iff = bytes_equal_iff }

-- The bytes of an ASCII text.
abbrev pub codes : String → Bytes
codes String.[] = []
codes (String.◌∷◌ c s) = code c ∷ codes s

module _ {ℓ} {A : Type ℓ} where
  abbrev pub take : ℕ → List A → List A
  take zero xs = []
  take (suc n) [] = []
  take (suc n) (x ∷ xs) = x ∷ take n xs

  abbrev pub drop : ℕ → List A → List A
  drop zero xs = xs
  drop (suc n) [] = []
  drop (suc n) (x ∷ xs) = drop n xs

  abbrev pub replicate : ℕ → A → List A
  replicate zero x = []
  replicate (suc n) x = x ∷ replicate n x

  -- The first items of a list that is long enough do not depend on what follows it.
  pub take-append : (n : ℕ) (xs ys : List A) → n ≤ length xs → take n (xs ++ ys) ≡ take n xs
  take-append zero xs ys l = refl
  take-append (suc n) [] ys l = elim l [ ]
  take-append (suc n) (x ∷ xs) ys l = ap (λ r. x ∷ r) (take-append n xs ys (omega (arith, l)))

abbrev pub begins_with : Bytes → Bytes → Bool
begins_with s [] = true
begins_with [] (q ∷ qs) = false
begins_with (c ∷ s) (q ∷ qs) = (c == q) && begins_with s qs

-- `bytes.Index(s, sep)`, where `none` is -1
unfoldable pub index : Bytes → Bytes → Option ℕ
index [] sep = if begins_with [] sep then some 0 else none
index (c ∷ s) sep =
    let later = index s sep in if begins_with (c ∷ s) sep then some 0 else Option.map suc later

-- `bytes.Contains`, and `strings.Contains` of a text's bytes
unfoldable pub contains : Bytes → Bytes → Bool
unfolding index
contains s sep = is_some (index s sep)

-- `filepath.Ext`: from the last byte back to a dot, and no further than a slash.
unfoldable pub ext_from : Bytes → Bytes → Bytes
ext_from [] suffix = []
ext_from (c ∷ before) suffix =
    let further = ext_from before (c ∷ suffix) in
    if c == b'/' then [] else if c == b'.' then c ∷ suffix else further

unfoldable pub ext : Bytes → Bytes
unfolding ext_from
ext path = ext_from (reverse path) []
