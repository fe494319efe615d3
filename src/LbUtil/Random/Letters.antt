-- ===== src/LbUtil/Random/Letters.antt =====
-- The characters that RandStringBytesRmndr of pkg/util/lb/lb.go gives.
use Prim.Native.Char.{Char, code}
use Prim.Native.String.{String, count, ◌++◌ as ◌<>◌}
use loadbalancer_controller.Common.{
  ℕ, zero, suc, ◌+◌, ◌%◌, ◌<◌, ◌≡◌, refl, arith, Bool, true, ◌&&◌, ◌||◌, not, ltb, Bool-cases, inl,
  inr, ◌==◌, nat_eq,
}
use text.Mathlib.TextLemmas.{nil-append, cons-append, length-append}
use loadbalancer_controller.LbUtil.Random.{letter, letters, rand_string_bytes_rmndr}

-- Every character of the text satisfies the test.
unfoldable pub all_chars : (Char → Bool) → String → Bool
all_chars p String.[] = true
all_chars p (String.◌∷◌ c s) = p c && all_chars p s

-- From a to z.
abbrev pub is_letter : Char → Bool
is_letter c = not (ltb (code c) b'a') && not (ltb b'z' (code c))

-- A letter, or a digit from 0 to 9.
abbrev pub is_letter_or_digit : Char → Bool
is_letter_or_digit c = is_letter c || not (ltb (code c) b'0') && not (ltb b'9' (code c))

all_chars-append :
    (p : Char → Bool) (s t : String) → all_chars p (s <> t) ≡ (all_chars p s && all_chars p t)
unfolding all_chars
all_chars-append p String.[] t = rw nil-append refl
all_chars-append p (String.◌∷◌ c s) t = rw cons-append (ground (arith, all_chars-append p s t))

-- The test holds of all smaller numbers.
abbrev all_below : ℕ → (ℕ → Bool) → Bool
all_below zero p = true
all_below (suc n) p = p n && all_below n p

all_below_lem : (n i : ℕ) (p : ℕ → Bool) → all_below n p ≡ true → i < n → p i ≡ true
all_below_lem zero i p h l = ground arith
all_below_lem (suc n) i p h l = elim (Bool-cases (ltb i n)) [
  | inl smaller ↦ ground (arith, all_below_lem n i p, h, smaller)
  | inr last ↦ let e : i ≡ n = ground (arith, l, last) in rw e (ground (arith, h))
]

-- What a letter of the table is: the first 26 are small letters.
letter_lem :
    (k : ℕ) → k < 36 → (count (letter k) ≡ 1) × (all_chars is_letter_or_digit (letter k) ≡ true)
unfolding letter all_chars
letter_lem k l = (
  (nat_eq.equals_iff (count (letter k)) 1).0
      (all_below_lem 36 k (λ i. count (letter i) == 1) refl l),
  all_below_lem 36 k (λ i. all_chars is_letter_or_digit (letter i)) refl l,
)

first_letter_lem : (k : ℕ) → k < 26 → all_chars is_letter (letter k) ≡ true
unfolding letter all_chars
first_letter_lem k l = all_below_lem 26 k (λ i. all_chars is_letter (letter i)) refl l

empty_letters : all_chars is_letter_or_digit "" ≡ true
unfolding all_chars
empty_letters = refl

letters_lem :
    (int63 : ℕ → ℕ) (i n : ℕ)
    → (count (letters int63 i n) ≡ n) × (all_chars is_letter_or_digit (letters int63 i n) ≡ true)
unfolding letters
letters_lem int63 i zero = (refl, empty_letters)
letters_lem int63 i (suc n) =
    let k = int63 i % 36 in
    let small : k < 36 = omega arith in
    let rest = letters_lem int63 (i + 1) n in
    let one = letter_lem k small in
    (
      rw (length-append, one.0, rest.0) (omega arith),
      rw (all_chars-append is_letter_or_digit (letter k) (letters int63 (i + 1) n), one.1, rest.1)
          refl,
    )

-- `RandStringBytesRmndr` gives a text of the length that is asked for, if that is not zero, whatever
-- the random numbers are. It is one small letter from a to z, and then such letters and digits only.
pub rand_string_bytes_rmndr_lem :
    (int63 : ℕ → ℕ) (more : ℕ)
    → (first rest : String) × (rand_string_bytes_rmndr int63 more ≡ first <> rest)
      × (count first ≡ 1)
      × (count rest ≡ more)
      × (all_chars is_letter first ≡ true)
      × (all_chars is_letter_or_digit rest ≡ true)
unfolding rand_string_bytes_rmndr
rand_string_bytes_rmndr_lem int63 more =
    let k = int63 0 % 26 in
    let rest = letters_lem int63 1 more in
    (
      letter k,
      letters int63 1 more,
      refl,
      (letter_lem k (omega arith)).0,
      rest.0,
      first_letter_lem k (omega arith),
      rest.1,
    )
