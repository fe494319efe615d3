-- ===== src/LbUtil/Random.antt =====
-- RandStringBytesRmndr of pkg/util/lb/lb.go.
pub mod Letters
use Prim.Native.String.{slice}
use loadbalancer_controller.Common.{ℕ, zero, suc, ◌+◌, ◌%◌, String, ◌<>◌}

abbrev letter_bytes : String
letter_bytes = "abcdefghijklmnopqrstuvwxyz1234567890"

-- `letterBytes[i]`
letter : ℕ → String
letter i = slice letter_bytes i (i + 1)

-- So many letters or digits, from the i-th random number on.
letters : (ℕ → ℕ) → ℕ → ℕ → String
unfolding letter
letters int63 i zero = ""
letters int63 i (suc n) = letter (int63 i % 36) <> letters int63 (i + 1) n

-- `RandStringBytesRmndr(more + 1)`, from the random numbers that `rand.Int63` gives in turn: a
-- letter, then letters or digits.
unfoldable pub rand_string_bytes_rmndr : (ℕ → ℕ) → ℕ → String
unfolding letter letters
rand_string_bytes_rmndr int63 more = letter (int63 0 % 26) <> letters int63 1 more
