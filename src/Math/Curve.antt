-- ===== src/Math/Curve.antt =====
-- The constant-product steps of src/math.rs, and the market cap.
pub mod Bounds
pub mod Inverse
pub mod Floating
use pump_swap_sdk.Prelude.{
  ℕ, zero, suc, ◌+◌, ◌-◌, ◌*◌, ◌/◌, Option, none, some, ltb, ◌==◌, if◌then◌else◌, saturate,
  mul_u128, add_u128, div_ceil,
}
use pump_swap_sdk.Math.Float.{Float}

unfoldable pub constant_product_out : ℕ → ℕ → ℕ → ℕ
constant_product_out amount_in reserve_in reserve_out =
    let numerator = mul_u128 reserve_out amount_in in
    let denominator = add_u128 reserve_in amount_in in
    if denominator == 0 then 0 else saturate (numerator / denominator)

-- `u64::checked_sub`
abbrev pub checked_sub : ℕ → ℕ → Option ℕ
checked_sub a b = if ltb a b then none else some (a - b)

unfoldable pub constant_product_in : ℕ → ℕ → ℕ → Option ℕ
constant_product_in amount_out reserve_in reserve_out = elim (checked_sub reserve_out amount_out) [
  | none ↦ none
  | some remaining ↦
      if remaining == 0
      then none
      else some (saturate (div_ceil (mul_u128 reserve_in amount_out) remaining))
]

unfoldable pub market_cap_lamports : ℕ → ℕ → ℕ → ℕ
market_cap_lamports base_supply base_reserve quote_reserve =
    if base_reserve == 0 then 0 else mul_u128 base_supply quote_reserve / base_reserve

module _ {F : Type 0} ⦃d : Float F⦄ where
  open d use {zero_f, one_f, of_u64, to_u64, add, sub, mul, div, round, max}

  unfoldable pub calc_amount_out : ℕ → ℕ → ℕ → F → ℕ
  calc_amount_out amount_in reserve_in reserve_out slippage =
      let product = mul (of_u64 reserve_in) (of_u64 reserve_out) in
      let new_in_reserve = add (of_u64 reserve_in) (of_u64 amount_in) in
      let new_out_reserve = add (div product new_in_reserve) one_f in
      let result = mul (sub (of_u64 reserve_out) new_out_reserve) (sub one_f slippage) in
      to_u64 (round (max result zero_f))
