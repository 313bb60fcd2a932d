-- ===== src/Math/Binary64/Opposites.antt =====
-- Bounds on the results of binary64 operations from the other side: from above for a product and a
-- quotient, from below for a difference that is not negative and what is done with it.
use native.Mathlib.Nat.{le-div_iff_mul-le}
use pump_swap_sdk.Prelude.{
  ℕ, ◌+◌, ◌-◌, ◌*◌, ◌/◌, ◌^◌, ◌≤◌, ◌<◌, ◌≡◌, refl, false, true, some, ltb, ◌==◌, mul_le_right,
  saturate, u64_max, arith,
}
use pump_swap_sdk.Math.Binary64.{Magnitude, finite, infinite, number, units, nearest}
use pump_swap_sdk.Math.Binary64.Nearest.{IsDouble}
use pump_swap_sdk.Math.Binary64.Order.{nearest-le, nearest-ge, IsDouble-le_infinite}
use pump_swap_sdk.Math.Binary64.Magnitudes.{one_unit-pos, whole-IsDouble, zero-units}
use pump_swap_sdk.Math.Binary64.Estimates.{quarter, one_unit-eq, quarter-pos}
use pump_swap_sdk.Math.Binary64.Arithmetic.{
  binary64, one_unit, times, over, minus, half_away, max, lt, to_u64, round,
}

pub times-upper :
    (a b : Magnitude) (x : ℕ)
    → units a < units infinite
    → units b < units infinite
    → IsDouble x
    → units a * units b ≤ x * one_unit
    → (c : Magnitude) × (times a b ≡ some c) × (units c ≤ x)
unfolding times
times-upper infinite b x h l v le = absurd (omega (arith, h))
times-upper (finite f) infinite x h l v le = absurd (omega (arith, l))
times-upper (finite f) (finite g) x h l v le = (_, refl, nearest-le _ one_unit x one_unit-pos v le)

pub over-upper :
    (a b : Magnitude) (x : ℕ)
    → 0 < units b
    → units a < units infinite
    → units b < units infinite
    → IsDouble x
    → units a * one_unit ≤ x * units b
    → (c : Magnitude) × (over a b ≡ some c) × (units c ≤ x)
unfolding over
over-upper infinite b x there h l v le = absurd (omega (arith, h))
over-upper (finite f) infinite x there h l v le = absurd (omega (arith, l))
over-upper (finite f) (finite g) x there h l v le =
    let positive : (units (finite g) == 0) ≡ false = ground arith in
    (
      nearest (units (finite f) * one_unit) (units (finite g)),
      rw positive refl,
      nearest-le _ (units (finite g)) x there v le,
    )

-- A difference that is not zero, between two numbers of units.
pub minus-between :
    (a b : Magnitude) (low high : ℕ)
    → units a < units infinite
    → units b < units a
    → IsDouble low
    → IsDouble high
    → units b + low ≤ units a
    → units a ≤ high
    → (c : Magnitude) × (minus false a b ≡ number false c) × (low ≤ units c) × (units c ≤ high)
unfolding minus
minus-between infinite b low high h less v w under over = absurd (omega (arith, h))
minus-between (finite f) infinite low high h less v w under over = absurd (omega (arith, h, less))
minus-between (finite f) (finite g) low high h less v w under over =
    let above : ltb (units (finite g)) (units (finite f)) ≡ true = ground arith in
    (
      nearest (units (finite f) - units (finite g)) 1,
      rw above refl,
      nearest-ge _ 1 low (omega arith) v (omega (arith, under)),
      nearest-le _ 1 high (omega arith) w (omega (arith, over)),
    )

pub max-nonneg : (a : Magnitude) → max (number false a) binary64.zero_f ≡ number false a
unfolding max lt
max-nonneg a =
    let above : ltb (units a) (units (nearest 0 1)) ≡ false = rw zero-units (ground arith) in
    rw above refl

rounding-ge :
    (a n u q : ℕ) → u ≡ 4 * q → 0 < q → (4 * n + 3) * q ≤ a + 4 * q → n ≤ (2 * a + u) / (2 * u)
rounding-ge a n u q four there h =
    let scaled : n * (2 * u) ≡ 8 * (n * q) = rw four (omega arith) in
    (le-div_iff_mul-le {k = 2 * u} (omega (arith, four, there))).1
      (rw scaled (omega (arith, four, h)))

half_away-ge :
    (a : Magnitude) (n : ℕ)
    → n ≤ 2 ^ 50
    → (4 * n + 3) * quarter ≤ units a + 4 * quarter
    → n * one_unit ≤ units (half_away a)
unfolding half_away
half_away-ge infinite n small h =
    IsDouble-le_infinite (n * one_unit) (whole-IsDouble n (omega (arith, small)))
half_away-ge (finite f) n small h =
    let least : n ≤ (2 * units (finite f) + one_unit) / (2 * one_unit) =
      rounding-ge (units (finite f)) n one_unit quarter one_unit-eq quarter-pos h in
    nearest-ge _ 1 (n * one_unit) (omega arith) (whole-IsDouble n (omega (arith, small)))
      (omega (arith, mul_le_right one_unit least))

saturate-ge : (n m : ℕ) → n ≤ u64_max → n ≤ m → n ≤ saturate m
saturate-ge n m small h = ground arith

-- A number of at least a whole number less a quarter rounds and converts to at least the whole
-- number.
pub to_u64-round-ge :
    (a : Magnitude) (n : ℕ)
    → n ≤ 2 ^ 50
    → (4 * n + 3) * quarter ≤ units a + 4 * quarter
    → n ≤ to_u64 (round (number false a))
unfolding to_u64
to_u64-round-ge a n small h =
    saturate-ge n (units (half_away a) / one_unit) (omega (arith, small))
      ((le-div_iff_mul-le one_unit-pos).1 (half_away-ge a n small h))
