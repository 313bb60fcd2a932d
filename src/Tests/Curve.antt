-- ===== src/Tests/Curve.antt =====
-- Concrete runs of the floating-point payout of src/math.rs.
use pump_swap_sdk.Prelude.{◌+◌, ◌≤◌, ◌≡◌, refl, arith}
use pump_swap_sdk.Math.Float.{◌≼◌}
use pump_swap_sdk.Math.Curve.{calc_amount_out, constant_product_out}
use pump_swap_sdk.Math.Curve.Bounds.{constant_product_out-eq}
use pump_swap_sdk.Math.Curve.Floating.{calc_amount_out-le}
use pump_swap_sdk.Math.Curve.Floating.Accuracy.{calc_amount_out-zero_f}
use pump_swap_sdk.Math.Binary64.{units, nearest}
use pump_swap_sdk.Math.Binary64.Arithmetic.{
  binary64, one_unit, to_u64, of_u64, max, mul, add, div, lt, le, minus, times, plus, over,
  half_away,
}

tenth-nonneg : binary64.zero_f ≼ binary64.literal 1 10
unfolding le units nearest one_unit
tenth-nonneg = refl

tenth-le_one : binary64.literal 1 10 ≼ binary64.one_f
unfolding le units nearest one_unit
tenth-le_one = refl

calc_amount_out-le_example :
    calc_amount_out 1_000 400_000 5_000 (binary64.literal 1 10)
    ≤ constant_product_out 1_000 400_000 5_000
calc_amount_out-le_example =
    calc_amount_out-le 1_000 400_000 5_000 (binary64.literal 1 10) (omega arith) (omega arith)
      (omega arith) tenth-nonneg tenth-le_one

-- A tenth less than the payout of 12, which the formula has at 11.46.
tenth_less : calc_amount_out 1_000 400_000 5_000 (binary64.literal 1 10) ≡ 10
unfolding calc_amount_out to_u64 of_u64 max mul add div lt minus times plus over half_away nearest
    units one_unit
tenth_less = refl

-- A slippage above 1 turns a negative remainder into a payout, where the curve pays nothing.
beyond_one : calc_amount_out 1 1_000 1_000 (binary64.literal 3_000 1) ≡ 3
unfolding calc_amount_out to_u64 of_u64 max mul add div lt minus times plus over half_away nearest
    units one_unit
beyond_one = refl

calc_amount_out-zero_f_example :
    (calc_amount_out 1_000 400_000 5_000 binary64.zero_f ≤ constant_product_out 1_000 400_000 5_000)
    × (constant_product_out 1_000 400_000 5_000
        ≤ calc_amount_out 1_000 400_000 5_000 binary64.zero_f + 1)
calc_amount_out-zero_f_example =
    calc_amount_out-zero_f 1_000 400_000 5_000 (omega arith) (omega arith) (omega arith)

-- The exact payout of 12 is offered as 11.
one_less : calc_amount_out 1_000 400_000 5_000 binary64.zero_f ≡ 11
unfolding calc_amount_out to_u64 of_u64 max mul add div lt minus times plus over half_away nearest
    units one_unit
one_less = refl

exact_twelve : constant_product_out 1_000 400_000 5_000 ≡ 12
exact_twelve = constant_product_out-eq 1_000 400_000 5_000 (omega arith) (omega arith) (omega arith)
