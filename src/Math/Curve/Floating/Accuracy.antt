-- ===== src/Math/Curve/Floating/Accuracy.antt =====
-- How little `calc_amount_out` of src/math.rs offers less than the exact payout, with no slippage.
use native.Mathlib.Nat.{div-mul-le_self}
use pump_swap_sdk.Prelude.{
  ℕ, zero, suc, ◌+◌, ◌-◌, ◌*◌, ◌/◌, ◌^◌, ◌≤◌, ◌<◌, ◌≡◌, refl, ap, ◌∙◌, false, mul_le_right, arith,
}
use pump_swap_sdk.Math.Float.{◌≼◌}
use pump_swap_sdk.Math.Curve.{calc_amount_out, constant_product_out}
use pump_swap_sdk.Math.Curve.Bounds.{constant_product_out-eq, div-le}
use pump_swap_sdk.Math.Curve.Floating.{calc_amount_out-le, calc_amount_out-eq}
use pump_swap_sdk.Math.Curve.Floating.Steps.{sum_exact}
use pump_swap_sdk.Math.Curve.Floating.Upper.{quotient_near, above, steps_high}
use pump_swap_sdk.Math.Binary64.{Magnitude, F64, number, units, nearest, infinite}
use pump_swap_sdk.Math.Binary64.Nearest.{IsDouble}
use pump_swap_sdk.Math.Binary64.Order.{units-IsDouble}
use pump_swap_sdk.Math.Binary64.Magnitudes.{
  one_unit-pos, one-units, zero-units, of_u64-units, u64-finite, whole-lt-infinite, times-ge,
}
use pump_swap_sdk.Math.Binary64.Estimates.{quarter, one_unit-eq, quarter-pos, quarters-IsDouble}
use pump_swap_sdk.Math.Binary64.Opposites.{minus-between, max-nonneg, to_u64-round-ge}
use pump_swap_sdk.Math.Binary64.Arithmetic.{
  binary64, one_unit, plus, minus, add, mul, max, round, to_u64, negate, le,
}

-- One less no slippage.
no_slippage :
    (c : Magnitude) × (add binary64.one_f (negate binary64.zero_f) ≡ number false c)
    × (one_unit ≤ units c)
    × (units c ≤ one_unit)
unfolding add
no_slippage =
    let one_double : IsDouble one_unit = rw one-units at (units-IsDouble (nearest one_unit 1)) in
    minus-between (nearest one_unit 1) (nearest 0 1) one_unit one_unit
      (rw one-units (omega (arith, whole-lt-infinite 1 (omega arith))))
      (rw (one-units, zero-units) one_unit-pos) one_double one_double
      (rw (one-units, zero-units) (omega arith)) (rw one-units (omega arith))

-- What is left of the reserve, times one, is rounded to at least a whole number less one.
kept_high :
    (d c w : Magnitude) (y : ℕ) (x : F64)
    → suc y ≤ 2 ^ 50
    → x ≡ number false d
    → units d < units infinite
    → units c < units infinite
    → one_unit ≤ units c
    → (4 * suc y - 5) * quarter ≤ units d
    → y ≤ to_u64 (round (max (mul x (number false c)) binary64.zero_f))
unfolding mul
kept_high d c w y x small same fd fc least low =
    let (e, scaled, more) = times-ge d c fd fc least in
    let enough : 4 * y + 3 ≤ (4 * suc y - 5) + 4 = omega arith in
    rw (same, scaled, max-nonneg e)
      (to_u64-round-ge e y (omega (arith, small))
        (omega (arith, low, more, mul_le_right quarter enough)))

-- What is left of the reserve in quarters, for a payout of more than one.
parted :
    (out y m w u q : ℕ)
    → u ≡ 4 * q
    → 0 < q
    → out ≡ suc (suc y) + m
    → w ≤ (4 * m + 1 + 4) * q
    → (w < out * u) × (w + (4 * suc (suc y) - 5) * q ≤ out * u)
parted out y m w u q four there split high =
    let reserve : out * u ≡ 4 * (out * q) = ap (λ (t : ℕ). out * t) four ∙ omega arith in
    let whole : out * q ≡ y * q + 2 * q + m * q = ap (λ (t : ℕ). t * q) split ∙ omega arith in
    let least : 4 * suc (suc y) - 5 ≡ 4 * y + 3 = omega arith in
    (
      omega (arith, high, reserve, whole, there),
      rw least (omega (arith, high, reserve, whole, there)),
    )

-- A payout of more than one.
accurate :
    (a r out y m : ℕ)
    → r + a ≤ 2 ^ 53
    → out ≤ 2 ^ 50
    → 0 < r + a
    → out ≡ suc (suc y) + m
    → suc (suc y) * (r + a) ≤ out * a
    → suc y ≤ calc_amount_out a r out binary64.zero_f
accurate a r out y m hn ho there split floor =
    let reserve = nearest (r * one_unit) 1 in
    let other = nearest (out * one_unit) 1 in
    let input = nearest (a * one_unit) 1 in
    let reserve-eq : units reserve ≡ r * one_unit = of_u64-units r (omega (arith, hn)) in
    let other-eq : units other ≡ out * one_unit = of_u64-units out (omega (arith, ho)) in
    let input-eq : units input ≡ a * one_unit = of_u64-units a (omega (arith, hn)) in
    let reserve-fin : units reserve < units infinite = u64-finite r (omega (arith, hn)) in
    let other-fin : units other < units infinite = u64-finite out (omega (arith, ho)) in
    let input-fin : units input < units infinite = u64-finite a (omega (arith, hn)) in
    let b = above r out (omega (arith, hn)) ho in
    let sum = sum_exact r a reserve input hn reserve-eq input-eq reserve-fin input-fin in
    let (p, q, product, quotient, high_w) =
      steps_high r out (4 * m + 1) (r + a) reserve other (plus reserve input) b
        (omega (arith, ho, split)) there hn reserve-eq other-eq sum reserve-fin other-fin
        (quotient_near a r out (suc (suc y)) m b.h split floor b.near) in
    let w = plus q (nearest one_unit 1) in
    let (less, low) =
      parted out y m (units w) one_unit quarter one_unit-eq quarter-pos split high_w in
    let (d, left, low_d, high_d) =
      minus-between other w ((4 * suc (suc y) - 5) * quarter) (units other) other-fin
        (rw other-eq less) (quarters-IsDouble (4 * suc (suc y) - 5) (omega (arith, ho, split)))
        (units-IsDouble other) (rw other-eq low) (omega arith) in
    let (c, factor, low_c, high_c) = no_slippage in
    let finite_c : units c < units infinite =
      omega (arith, high_c, whole-lt-infinite 1 (omega arith)) in
    rw (calc_amount_out-eq a r out binary64.zero_f p q c product quotient factor) (
      kept_high d c w (suc y) (minus false other w) (omega (arith, ho, split)) left
        (omega (arith, high_d, other-fin)) finite_c low_c low_d)

zero_within : (binary64.zero_f ≼ binary64.zero_f) × (binary64.zero_f ≼ binary64.one_f)
unfolding le units nearest one_unit
zero_within = (refl, refl)

at_most_one_less :
    (a r out y : ℕ)
    → r + a ≤ 2 ^ 53
    → out ≤ 2 ^ 50
    → 0 < r + a
    → y ≤ out
    → y * (r + a) ≤ out * a
    → y ≤ calc_amount_out a r out binary64.zero_f + 1
at_most_one_less a r out zero hn ho there paid floor = omega arith
at_most_one_less a r out (suc zero) hn ho there paid floor = omega arith
at_most_one_less a r out (suc (suc y)) hn ho there paid floor =
    omega (arith, accurate a r out y (out - suc (suc y)) hn ho there (omega (arith, paid)) floor)

-- For a side that is not empty and holds at most 2^53 after the input, and another of at most 2^50:
-- with no slippage, the floating-point formula offers at most the exact payout and at most one less.
pub calc_amount_out-zero_f :
    (a r out : ℕ)
    → 0 < r + a
    → r + a ≤ 2 ^ 53
    → out ≤ 2 ^ 50
    → (calc_amount_out a r out binary64.zero_f ≤ constant_product_out a r out)
      × (constant_product_out a r out ≤ calc_amount_out a r out binary64.zero_f + 1)
calc_amount_out-zero_f a r out there hn ho =
    let exact =
      constant_product_out-eq a r out (omega (arith, hn)) (omega (arith, hn)) (omega (arith, ho)) in
    let (from, to) = zero_within in
    (
      calc_amount_out-le a r out binary64.zero_f there hn ho from to,
      rw exact (
          at_most_one_less a r out (out * a / (r + a)) hn ho there (div-le a r out)
            (div-mul-le_self (out * a) (r + a))),
    )
