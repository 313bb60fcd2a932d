-- ===== src/Math/Curve/Floating.antt =====
-- `calc_amount_out` of src/math.rs, which computes with `f64`, against the exact payout.
pub mod Steps
pub mod Upper
pub mod Accuracy
use native.Mathlib.Nat.{
  div-mul-le_self, lt-div-mul-add, div-le_of_le-mul, one-le-pow, mul-pos, mul-le-mul, le_of_lt,
  le_antisymm,
}
use pump_swap_sdk.Prelude.{
  ℕ, zero, suc, ◌+◌, ◌-◌, ◌*◌, ◌/◌, ◌^◌, ◌≤◌, ◌<◌, ◌≡◌, refl, ap, ◌∙◌, ◌⊎◌, inl, inr, true, false,
  some, saturate, mul_le_right, arith,
}
use pump_swap_sdk.Math.Float.{◌≼◌}
use pump_swap_sdk.Math.Curve.{calc_amount_out, constant_product_out}
use pump_swap_sdk.Math.Curve.Bounds.{constant_product_out-eq, div-le}
use pump_swap_sdk.Math.Binary64.{Magnitude, F64, number, nan, units, nearest, infinite}
use pump_swap_sdk.Math.Binary64.Nearest.{IsDouble, doubled, lt-or-le}
use pump_swap_sdk.Math.Binary64.Magnitudes.{
  one_unit-pos, one-units, of_u64-units, u64-finite, whole-IsDouble, whole-lt-infinite,
}
use pump_swap_sdk.Math.Binary64.Estimates.{
  quarter, one_unit-eq, quarter-pos, quarters-IsDouble, scaled-IsDouble, times-lower, over-lower,
  plus-lower, plus-upper, AtMost, minus-AtMost, one_less, mul-AtMost, max-AtMost, half_away-le,
}
use pump_swap_sdk.Math.Binary64.Arithmetic.{
  binary64, one_unit, times, over, plus, minus, half_away, add, mul, div, max, round, to_u64,
  of_u64, negate,
}
use pump_swap_sdk.Math.Curve.Floating.Steps.{
  Below, below, quotient_near, product_low, sum_exact, quotient_low,
}

saturate-le : (n : ℕ) → saturate n ≤ n
saturate-le n = ground arith

quarters_lt : (n : ℕ) → n ≤ 2 ^ 50 → (4 * n + 1) * quarter < units infinite
quarters_lt n small = omega (
  arith,
  whole-lt-infinite (n + 1) (omega (arith, small)),
  ap (λ (t : ℕ). (n + 1) * t) one_unit-eq,
  quarter-pos,
)

-- A value of at most a whole number and a quarter rounds and converts to at most the whole number.
capped : (x : F64) (n : ℕ) → n ≤ 2 ^ 50 → AtMost ((4 * n + 1) * quarter) x → to_u64 (round x) ≤ n
unfolding to_u64
capped nan n small h = omega arith
capped (number true a) n small h = omega arith
capped (number false a) n small h =
    let fin : units a < units infinite = omega (arith, h, quarters_lt n small) in
    let rounded : units (half_away a) / one_unit ≤ n =
      div-le_of_le-mul one_unit (omega (arith, half_away-le a n small fin h)) in
    omega (arith, saturate-le (units (half_away a) / one_unit), rounded)

pub calc_amount_out-eq :
    (a r out : ℕ) (s : F64) (p q c : Magnitude)
    → times (nearest (r * one_unit) 1) (nearest (out * one_unit) 1) ≡ some p
    → over p (plus (nearest (r * one_unit) 1) (nearest (a * one_unit) 1)) ≡ some q
    → add binary64.one_f (negate s) ≡ number false c
    → calc_amount_out a r out s
      ≡ to_u64 (
          round (
            max
              (mul
                (minus false (nearest (out * one_unit) 1) (plus q (nearest one_unit 1)))
                (number false c))
              binary64.zero_f))
unfolding calc_amount_out of_u64 mul div add
calc_amount_out-eq a r out s p q c product quotient factor = simp (product, quotient, factor)

-- What the quarters come to: the reserve is what is left of it and the payout.
parted :
    (out y m w u q : ℕ)
    → u ≡ 4 * q
    → out ≡ y + m
    → (4 * m - 5 + 4) * q ≤ w
    → out * u ≤ w + (4 * y + 1) * q
parted out y m w u q four split low =
    let enough : 4 * out ≤ (4 * m - 5 + 4) + (4 * y + 1) = omega arith in
    omega (arith, low, mul_le_right q enough, ap (λ (t : ℕ). out * t) four)

-- For a side that is not empty and holds at most 2^53 after the input, another of at most 2^50, and a
-- slippage from 0 to 1: whatever the roundings of the five steps, the payout that the floating-point
-- formula offers is at most the exact one.
pub calc_amount_out-le :
    (a r out : ℕ) (s : F64)
    → 0 < r + a
    → r + a ≤ 2 ^ 53
    → out ≤ 2 ^ 50
    → binary64.zero_f ≼ s
    → s ≼ binary64.one_f
    → calc_amount_out a r out s ≤ constant_product_out a r out
calc_amount_out-le a r out s there hn ho low high =
    let y = out * a / (r + a) in
    let m = out - y in
    let paid : y ≤ out = div-le a r out in
    let split : out ≡ y + m = omega arith in
    let reserve = nearest (r * one_unit) 1 in
    let other = nearest (out * one_unit) 1 in
    let input = nearest (a * one_unit) 1 in
    let reserve-eq : units reserve ≡ r * one_unit = of_u64-units r (omega (arith, hn)) in
    let other-eq : units other ≡ out * one_unit = of_u64-units out (omega (arith, ho)) in
    let input-eq : units input ≡ a * one_unit = of_u64-units a (omega (arith, hn)) in
    let reserve-fin : units reserve < units infinite = u64-finite r (omega (arith, hn)) in
    let other-fin : units other < units infinite = u64-finite out (omega (arith, ho)) in
    let input-fin : units input < units infinite = u64-finite a (omega (arith, hn)) in
    let b = below r out (omega (arith, hn)) ho in
    let (p, product, low_p) =
      product_low r out reserve other b reserve-eq other-eq reserve-fin other-fin in
    let sum = sum_exact r a reserve input hn reserve-eq input-eq reserve-fin input-fin in
    let near = quotient_near a r out y m b.g split (lt-div-mul-add there) b.near in
    let (q, quotient, low_w) =
      quotient_low (4 * m - 5) (r + a) b.g p (plus reserve input) (omega arith) there hn sum low_p
        near in
    let (c, factor, at_most_one) = one_less s low high in
    let w = plus q (nearest one_unit 1) in
    let z = (4 * y + 1) * quarter in
    let left : AtMost z (minus false other w) =
      minus-AtMost other w z other-fin (quarters-IsDouble (4 * y + 1) (omega arith))
        (rw other-eq (parted out y m (units w) one_unit quarter one_unit-eq split low_w)) in
    let scaled =
      mul-AtMost (minus false other w) c z (quarters_lt y (omega arith)) at_most_one left in
    let kept = max-AtMost (mul (minus false other w) (number false c)) z scaled in
    rw
      (
        constant_product_out-eq a r out (omega (arith, hn)) (omega (arith, hn)) (omega (arith, ho)),
        calc_amount_out-eq a r out s p q c product quotient factor,
      )
      (capped _ y (omega arith) kept)
