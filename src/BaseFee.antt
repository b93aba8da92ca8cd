-- ===== src/BaseFee.antt =====
-- src/base_fee.rs: the base fee of the next block, by EIP-1559.
-- A `Uint256` is a natural number below 2 ^ 256 and a u64 one below 2 ^ 64.
pub mod Reference
use eleel.Common.{ℕ, ◌+◌, ◌-◌, ◌*◌, ◌/◌, max, Option, none, some, ltb, ◌==◌, if◌then◌else◌}
use eleel.External.Uint256.{Uint256}

abbrev pub elasticity_multiplier : ℕ
elasticity_multiplier = 2

abbrev pub base_fee_max_change_denominator : ℕ
base_fee_max_change_denominator = 8

infixl 5 ◌>>=◌
abbrev ◌>>=◌ : Option ℕ → (ℕ → Option ℕ) → Option ℕ
none >>= f = none
some a >>= f = f a

-- Division of `Uint256` panics on a zero divisor: `none`.
unfoldable pub div_u256 : ℕ → ℕ → Option ℕ
div_u256 a b = if b == 0 then none else some (a / b)

module _ (u : Uint256) where
  -- `base * delta / target / denominator`
  unfoldable pub scaled_delta : ℕ → ℕ → ℕ → Option ℕ
  unfolding div_u256
  scaled_delta base_fee gas_used_delta parent_gas_target = do
    scaled ← div_u256 (u.mul base_fee gas_used_delta) parent_gas_target
    div_u256 scaled base_fee_max_change_denominator

  -- `none` is a panic. The function's branches in the source's order; `-` stops at 0, as
  -- `saturating_sub` does.
  unfoldable pub expected_base_fee_per_gas : ℕ → ℕ → ℕ → Option ℕ
  unfolding scaled_delta
  expected_base_fee_per_gas parent_base_fee_per_gas parent_gas_used parent_gas_limit =
      let parent_gas_target = parent_gas_limit / elasticity_multiplier in
      if parent_gas_used == parent_gas_target
      then some parent_base_fee_per_gas
      else if ltb parent_gas_target parent_gas_used
      then (do
        delta ←
            scaled_delta parent_base_fee_per_gas (parent_gas_used - parent_gas_target)
              parent_gas_target
        some (u.add parent_base_fee_per_gas (max delta 1)))
      else (do
        delta ←
            scaled_delta parent_base_fee_per_gas (parent_gas_target - parent_gas_used)
              parent_gas_target
        some (parent_base_fee_per_gas - delta))
