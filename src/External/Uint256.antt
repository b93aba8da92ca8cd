-- ===== src/External/Uint256.antt =====
-- `eth2::types::Uint256`: the product and the sum of two words are exact where they are below
-- 2 ^ 256. What they are beyond is left open.
use eleel.Common.{ℕ, ◌+◌, ◌*◌, ◌^◌, ◌<◌, ◌≡◌}

abbrev pub word_limit : ℕ
word_limit = 2 ^ 256

pub record Uint256 : Type 0 where
  pub mul : ℕ → ℕ → ℕ
  pub add : ℕ → ℕ → ℕ
  pub mul_exact : (a b : ℕ) → a * b < word_limit → mul a b ≡ a * b
  pub add_exact : (a b : ℕ) → a + b < word_limit → add a b ≡ a + b
