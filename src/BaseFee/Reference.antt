-- ===== src/BaseFee/Reference.antt =====
-- The range of src/base_fee.rs's result, its order in the gas used, and its only panic.
use native.Mathlib.Nat.{
  div-le_of_le-mul, mul-le-mul, mul-le-mul_left, le-div_iff_mul-le, div-mul-le_self, le_trans,
}
use eleel.Common.{
  ℕ, zero, suc, ◌+◌, ◌-◌, ◌*◌, ◌/◌, ◌^◌, max, ◌≤◌, ◌<◌, ◌≡◌, ◌↔◌, none, some, arith, ltb,
  if◌then◌else◌,
}
use eleel.External.Uint256.{Uint256}
use eleel.BaseFee.{expected_base_fee_per_gas}

mul-fits : (a b : ℕ) → a < 2 ^ 190 → b < 2 ^ 64 → a * b < 2 ^ 254
mul-fits a b h k =
    let top : a * b ≤ (2 ^ 190 - 1) * (2 ^ 64) =
      mul-le-mul {n₂ = 2 ^ 190 - 1} {m₂ = 2 ^ 64} (omega arith) (omega arith) in
    omega arith

div_mono : (a b n : ℕ) → a ≤ b → a / n ≤ b / n
div_mono a b zero h = omega arith
div_mono a b (suc n) h =
    (le-div_iff_mul-le (omega arith)).1 (le_trans (div-mul-le_self a (suc n)) h)

-- The change of the fee in exact arithmetic.
delta : ℕ → ℕ → ℕ → ℕ
delta base d target = base * d / target / 8

delta-le : (base d target : ℕ) → d ≤ target → delta base d target ≤ base / 8
unfolding delta
delta-le base d target h =
    let whole : base * d / target ≤ base =
      div-le_of_le-mul target (omega (arith, mul-le-mul_left base h)) in
    omega arith

delta_mono : (base d e target : ℕ) → d ≤ e → delta base d target ≤ delta base e target
unfolding delta
delta_mono base d e target h =
    omega (arith, div_mono (base * d) (base * e) target (mul-le-mul_left base h))

delta-zero : (base target : ℕ) → delta base 0 target ≡ 0
unfolding delta
delta-zero base target =
    let whole : base * 0 / target ≤ 0 = div-le_of_le-mul target (omega arith) in omega arith

-- The function with its word arithmetic read as arithmetic.
expected_exact : ℕ → ℕ → ℕ → ℕ
expected_exact base used limit =
    let target = limit / 2 in
    if ltb target used
    then base + max (delta base (used - target) target) 1
    else base - delta base (target - used) target

module _ (u : Uint256) where
  -- The base fee panics, by a division by zero, exactly for a parent with a gas limit below 2 that
  -- used some gas.
  pub expected-eq-none_iff :
      (base used limit : ℕ)
      → (expected_base_fee_per_gas u base used limit ≡ none) ↔ ((limit < 2) × (0 < used))
  unfolding expected_base_fee_per_gas
  expected-eq-none_iff base used limit = ground arith

  expected_exact_lem :
      (base used limit : ℕ)
      → base < 2 ^ 190
      → used < 2 ^ 64
      → limit < 2 ^ 64
      → 2 ≤ limit
      → expected_base_fee_per_gas u base used limit ≡ some (expected_exact base used limit)
  unfolding expected_base_fee_per_gas expected_exact delta
  expected_exact_lem base used limit hb hu hl h =
      let above = mul-fits base (used - limit / 2) hb (omega arith) in
      let below = mul-fits base (limit / 2 - used) hb (omega arith) in
      let exact_above = u.mul_exact base (used - limit / 2) (omega arith) in
      let exact_below = u.mul_exact base (limit / 2 - used) (omega arith) in
      ground (
        arith,
        exact_above,
        exact_below,
        u.add_exact base (max (base * (used - limit / 2) / (limit / 2) / 8) 1),
      )

-- What the fee of a block within its gas limit promises.
pub record IsInRange (base used target fee : ℕ) : Type 0 where
  pub at_least : base - base / 8 ≤ fee
  pub at_most : fee ≤ base + max (base / 8) 1
  pub at_target : used ≡ target → fee ≡ base
  pub above_target : target < used → base < fee
  pub below_target : used < target → fee ≤ base

module _ (u : Uint256) where
  -- At a gas limit of at least 2 and a base fee below 2 ^ 190 the function returns, for a block
  -- that used at most twice the target: the new fee differs from the old one by at most an eighth
  -- of it (by 1 where the eighth is 0 and the fee goes up), stays the same at the target, rises
  -- above it and does not rise below it.
  pub expected-IsInRange :
      (base used limit : ℕ)
      → base < 2 ^ 190
      → used < 2 ^ 64
      → limit < 2 ^ 64
      → 2 ≤ limit
      → used ≤ 2 * (limit / 2)
      → (fee : ℕ) × (expected_base_fee_per_gas u base used limit ≡ some fee)
        × IsInRange base used (limit / 2) fee
  unfolding expected_exact
  expected-IsInRange base used limit hb hu hl h most = (
    expected_exact base used limit,
    expected_exact_lem u base used limit hb hu hl h,
    let above = delta-le base (used - limit / 2) (limit / 2) (omega arith) in
        let below = delta-le base (limit / 2 - used) (limit / 2) (omega arith) in
        let at_zero = delta-zero base (limit / 2) in ground arith,
  )

  -- More gas used in the parent never lowers the fee, at one base fee below 2 ^ 190 and one gas
  -- limit of at least 2.
  pub expected_mono :
      (base used more limit : ℕ)
      → base < 2 ^ 190
      → more < 2 ^ 64
      → limit < 2 ^ 64
      → 2 ≤ limit
      → used ≤ more
      → (fee higher : ℕ) × (expected_base_fee_per_gas u base used limit ≡ some fee)
        × (expected_base_fee_per_gas u base more limit ≡ some higher)
        × (fee ≤ higher)
  unfolding expected_exact
  expected_mono base used more limit hb hm hl h le = (
    expected_exact base used limit,
    expected_exact base more limit,
    expected_exact_lem u base used limit hb (omega arith) hl h,
    expected_exact_lem u base more limit hb hm hl h,
    let above = delta_mono base (used - limit / 2) (more - limit / 2) (limit / 2) (omega arith) in
        let below =
          delta_mono base (limit / 2 - more) (limit / 2 - used) (limit / 2) (omega arith) in
        ground arith,
  )
