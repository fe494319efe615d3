-- ===== src/Common/Decimal.antt =====
-- `%d` of an int32, given as its bit pattern.
use loadbalancer_controller.Common.Equality.{◌==◌, nat_eq}
use loadbalancer_controller.Common.Logic.{if◌then◌else◌}
use Prim.Native.Nat.{ℕ, zero, suc, ◌-◌, ◌/◌, ◌%◌, ◌^◌, compare, Ordering}
use Prim.Native.String.{String, ◌++◌}
use mathlib.Core.Path.{◌≡◌, refl}

digit : ℕ → String
digit n =
    if n == 0
    then "0"
    else if n == 1
    then "1"
    else if n == 2
    then "2"
    else if n == 3
    then "3"
    else if n == 4
    then "4"
    else if n == 5
    then "5"
    else if n == 6
    then "6"
    else if n == 7
    then "7"
    else if n == 8
    then "8"
    else "9"

-- At most as many digits as the fuel.
digits : ℕ → ℕ → String
digits zero n = ""
digits (suc f) n =
    let rest = digits f (n / 10) in if n / 10 == 0 then digit n else rest ++ digit (n % 10)

-- Ten digits are enough below 2 ^ 32.
unfoldable pub show_int32 : ℕ → String
unfolding digits digit
show_int32 n = elim (compare n (2 ^ 31)) [
  | Ordering.lt ↦ digits 10 n
  | _ ↦ "-" ++ digits 10 (2 ^ 32 - n)
]

show_minus_one : show_int32 4294967295 ≡ "-1"
unfolding show_int32
show_minus_one = refl

show_signal : show_int32 137 ≡ "137"
unfolding show_int32
show_signal = refl
