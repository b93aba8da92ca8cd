-- ===== src/PayloadBuilder/Bytes.antt =====
-- `u64::to_be_bytes` and `u64::from_be_bytes`, which make payload ids of numbers.
use eleel.Common.{ℕ, zero, suc, ◌+◌, ◌*◌, ◌/◌, ◌%◌, ◌^◌, ◌<◌, ◌≡◌, refl, List, [], ◌∷◌, ◌++◌, arith}

bytes_be : ℕ → ℕ → List ℕ
bytes_be zero n = []
bytes_be (suc k) n = bytes_be k (n / 256) ++ (n % 256) ∷ []

unfoldable pub to_be_bytes : ℕ → List ℕ
unfolding bytes_be
to_be_bytes n = bytes_be 8 n

number_from : ℕ → List ℕ → ℕ
number_from acc [] = acc
number_from acc (b ∷ l) = number_from (acc * 256 + b) l

unfoldable pub from_be_bytes : List ℕ → ℕ
unfolding number_from
from_be_bytes l = number_from 0 l

number_from-append :
    (acc : ℕ) (l : List ℕ) (b : ℕ) → number_from acc (l ++ b ∷ []) ≡ number_from acc l * 256 + b
unfolding number_from
number_from-append acc [] b = refl
number_from-append acc (c ∷ l) b = number_from-append (acc * 256 + c) l b

-- Reading the bytes of a u64 gives the u64 back.
pub from_be_bytes-to_be_bytes : (n : ℕ) → n < 2 ^ 64 → from_be_bytes (to_be_bytes n) ≡ n
unfolding from_be_bytes to_be_bytes
from_be_bytes-to_be_bytes n h = omega arith
