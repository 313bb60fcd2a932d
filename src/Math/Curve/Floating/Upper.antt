-- ===== src/Math/Curve/Floating/Upper.antt =====
-- The first steps of `calc_amount_out` of src/math.rs, from above: the product of the reserves, their
-- quotient by the sum, and one more.
use native.Mathlib.Nat.{
  div-mul-le_self, lt-div-mul-add, one-le-pow, mul-pos, mul-le-mul, le_of_lt,
  lt_of_mul-lt-mul_right,
}
use pump_swap_sdk.Prelude.{
  ℕ, ◌+◌, ◌-◌, ◌*◌, ◌/◌, ◌^◌, ◌≤◌, ◌<◌, ◌≡◌, refl, ap, ◌∙◌, ◌⊎◌, inl, inr, some, mul_le_right,
  arith,
}
use pump_swap_sdk.Math.Curve.Floating.Steps.{scale}
use pump_swap_sdk.Math.Binary64.{Magnitude, units, nearest, infinite, last_power}
use pump_swap_sdk.Math.Binary64.Nearest.{IsDouble}
use pump_swap_sdk.Math.Binary64.Magnitudes.{one_unit-pos, one-units, whole-lt-infinite}
use pump_swap_sdk.Math.Binary64.Estimates.{
  quarter, one_unit-eq, quarters-IsDouble, scaled-IsDouble, plus-upper,
}
use pump_swap_sdk.Math.Binary64.Opposites.{times-upper, over-upper}
use pump_swap_sdk.Math.Binary64.Arithmetic.{binary64, one_unit, times, over, plus, le}

-- A binary64 above a product of reserves, by at most a quarter of the first.
pub record Above (r out : ℕ) : Type 0 where
  pub h : ℕ
  pub is_double : IsDouble (h * one_unit)
  pub near : 4 * h ≤ 4 * (r * out) + r
  pub over_product : r * out ≤ h
  pub small : h ≤ 2 ^ 104

-- The multiple of a power at or above a number.
ceiling :
    (n power t : ℕ)
    → 0 < power
    → t ≡ (n + (power - 1)) / power
    → (n ≤ t * power) × (t * power ≤ n + (power - 1))
ceiling n power t there same =
    let low : n + (power - 1) < t * power + power =
      rw same (lt-div-mul-add {a = n + (power - 1)} there) in
    let high : t * power ≤ n + (power - 1) = rw same (div-mul-le_self (n + (power - 1)) power) in
    (omega (arith, low, there), high)

near_power : (p r h k : ℕ) → h ≤ p + (2 ^ k - 1) → (k ≡ 0) ⊎ (4 * 2 ^ k ≤ r) → 4 * h ≤ 4 * p + r
near_power p r h k le (inl first) = let one : 2 ^ k ≡ 1 = rw first refl in omega (arith, one, le)
near_power p r h k le (inr small) = omega (arith, le, small)

pub above : (r out : ℕ) → r ≤ 2 ^ 53 → out ≤ 2 ^ 50 → Above r out
above r out hr ho =
    let (k, le, under, from) = scale 51 r (omega (arith, hr)) in
    let power = 2 ^ k in
    let there : 0 < power = one-le-pow k 2 (omega arith) in
    let t = (r * out + (power - 1)) / power in
    let (over_product, close) = ceiling (r * out) power t there refl in
    let within : r * out ≤ 8 * power * 2 ^ 50 = mul-le-mul (le_of_lt under) ho in
    let few : t < 2 ^ 53 + 1 = lt_of_mul-lt-mul_right power (omega (arith, close, within, there)) in
    let small : t ≤ 2 ^ 53 = omega (arith, few) in
    let whole : r * out ≤ 2 ^ 53 * 2 ^ 50 = mul-le-mul hr ho in
    let near = near_power (r * out) r (t * power) k close from in
    record {
      h = t * power;
      is_double = scaled-IsDouble t k small le;
      near = near;
      over_product = over_product;
      small = omega (arith, near, whole, hr);
    }

-- The quotient of the rounded product is below what the payout `y` leaves of the reserve, and a
-- quarter.
pub quotient_near :
    (a r out y m h : ℕ)
    → out ≡ y + m
    → y * (r + a) ≤ out * a
    → 4 * h ≤ 4 * (r * out) + r
    → 4 * h ≤ (4 * m + 1) * (r + a)
quotient_near a r out y m h split floor near =
    let spent : out * a ≡ y * a + m * a = ap (λ (t : ℕ). t * a) split ∙ omega arith in
    let held : r * out ≡ y * r + m * r = ap (λ (t : ℕ). r * t) split ∙ omega arith in
    omega (arith, spent, held, floor, near)

squared_le : (n h u : ℕ) → n ≤ h → n * (u * u) ≤ h * u * u
squared_le n h u le = omega (arith, mul_le_right (u * u) le)

squares : (r out u : ℕ) → r * u * (out * u) ≡ r * out * (u * u)
squares r out u = omega arith

quotient_le : (k n h u q : ℕ) → u ≡ 4 * q → 4 * h ≤ k * n → h * u * u ≤ k * q * (n * u)
quotient_le k n h u q four le =
    omega (arith, mul_le_right (q * u) le, ap (λ (t : ℕ). h * t * u) four)

-- The values that the formula is computed from are finite.
large_lt_infinite : (h : ℕ) → h ≤ 2 ^ 104 → h * one_unit < units infinite
unfolding one_unit units last_power
large_lt_infinite h small = omega (arith, small)

-- The product, the quotient and one more, from above in quarters.
pub steps_high :
    (r out k n : ℕ) (a b s : Magnitude) (high : Above r out)
    → k ≤ 2 ^ 52
    → 0 < n
    → n ≤ 2 ^ 53
    → units a ≡ r * one_unit
    → units b ≡ out * one_unit
    → units s ≡ n * one_unit
    → units a < units infinite
    → units b < units infinite
    → 4 * high.h ≤ k * n
    → (p : Magnitude) × (q : Magnitude) × (times a b ≡ some p)
      × (over p s ≡ some q)
      × (units (plus q (nearest one_unit 1)) ≤ (k + 4) * quarter)
steps_high r out k n a b s high small there most left right sum fa fb le =
    let (p, product, high_p) = times-upper a b (high.h * one_unit) fa fb high.is_double (
      rw (left, right, squares r out one_unit)
        (squared_le (r * out) high.h one_unit high.over_product)) in
    let (q, quotient, high_q) =
      over-upper p s (k * quarter) (rw sum (mul-pos there one_unit-pos))
        (omega (arith, high_p, large_lt_infinite high.h high.small))
        (rw sum (whole-lt-infinite n most)) (quarters-IsDouble k (omega (arith, small)))
        (rw sum (
          omega (
            arith,
            quotient_le k n high.h one_unit quarter one_unit-eq le,
            mul_le_right one_unit high_p,
          ))) in
    let one_fin : units (nearest one_unit 1) < units infinite =
      rw one-units (omega (arith, whole-lt-infinite 1 (omega arith))) in
    let quarters_fin : k * quarter < units infinite =
      omega
        (arith, whole-lt-infinite k (omega (arith, small)), ap (λ (t : ℕ). k * t) one_unit-eq) in
    (
      p,
      q,
      product,
      quotient,
      plus-upper q (nearest one_unit 1) ((k + 4) * quarter) (omega (arith, high_q, quarters_fin))
          one_fin (quarters-IsDouble (k + 4) (omega (arith, small)))
          (rw one-units (omega (arith, high_q, one_unit-eq))),
    )
