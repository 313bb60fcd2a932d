-- ===== src/Math/Binary64/Estimates.antt =====
-- Bounds on the results of binary64 operations, in quarters: from below for the magnitudes of a product,
-- a quotient and a sum, and from above for values that may be negative or NaN.
use native.Mathlib.Nat.{div-lt_iff_lt-mul, one-le-pow}
use pump_swap_sdk.Prelude.{
  ℕ, Option, ◌+◌, ◌-◌, ◌*◌, ◌/◌, ◌^◌, ◌≤◌, ◌<◌, ◌≡◌, refl, ap, inl, inr, true, false, Bool-cases,
  some, none, ltb, ◌==◌, mul_le_right, arith,
}
use pump_swap_sdk.Math.Float.{◌≼◌}
use pump_swap_sdk.Math.Binary64.{Magnitude, finite, infinite, F64, number, nan, units, nearest}
use pump_swap_sdk.Math.Binary64.Nearest.{IsDouble, pow_add}
use pump_swap_sdk.Math.Binary64.Order.{nearest-le, nearest-ge, units-IsDouble, IsDouble-le_infinite}
use pump_swap_sdk.Math.Binary64.Magnitudes.{
  one_unit-pos, whole-IsDouble, whole-lt-infinite, zero-units, one-units, infinite-pos, times-le,
}
use pump_swap_sdk.Math.Binary64.Comparison.{not_below, below_one, not_nan}
use pump_swap_sdk.Math.Binary64.Arithmetic.{
  binary64, signed, one_unit, times, over, plus, minus, half_away, add, mul, max, lt, negate,
}

-- The units of a quarter.
unfoldable pub quarter : ℕ
quarter = 2 ^ 1_072

pub one_unit-eq : one_unit ≡ 4 * quarter
unfolding one_unit quarter
one_unit-eq = refl

pub quarter-pos : 0 < quarter
unfolding quarter
quarter-pos = one-le-pow 1_072 2 (omega arith)

pub quarters-IsDouble : (n : ℕ) → n ≤ 2 ^ 53 → IsDouble (n * quarter)
unfolding quarter
quarters-IsDouble n h = record { m = n; e = 1_072; small = h; bounded = omega arith; value = refl }

-- A multiple of a power of two.
pub scaled-IsDouble : (t k : ℕ) → t ≤ 2 ^ 53 → k ≤ 51 → IsDouble (t * 2 ^ k * one_unit)
unfolding one_unit
scaled-IsDouble t k h l = record {
  m = t;
  e = k + 1_074;
  small = h;
  bounded = omega arith;
  value = omega (arith, ap (λ (p : ℕ). t * p) (pow_add k 1_074));
}

pub times-lower :
    (a b : Magnitude) (x : ℕ)
    → units a < units infinite
    → units b < units infinite
    → IsDouble x
    → x * one_unit ≤ units a * units b
    → (c : Magnitude) × (times a b ≡ some c) × (x ≤ units c)
unfolding times
times-lower infinite b x h l v le = absurd (omega (arith, h))
times-lower (finite f) infinite x h l v le = absurd (omega (arith, l))
times-lower (finite f) (finite g) x h l v le = (_, refl, nearest-ge _ one_unit x one_unit-pos v le)

pub over-lower :
    (a b : Magnitude) (x : ℕ)
    → 0 < units b
    → units b < units infinite
    → IsDouble x
    → x * units b ≤ units a * one_unit
    → (c : Magnitude) × (over a b ≡ some c) × (x ≤ units c)
unfolding over
over-lower a infinite x there h v le = absurd (omega (arith, h))
over-lower infinite (finite g) x there h v le = (infinite, refl, IsDouble-le_infinite x v)
over-lower (finite f) (finite g) x there h v le =
    let positive : (units (finite g) == 0) ≡ false = ground arith in
    (_, rw positive refl, nearest-ge _ (units (finite g)) x there v le)

pub plus-lower :
    (a b : Magnitude) (x : ℕ) → IsDouble x → x ≤ units a + units b → x ≤ units (plus a b)
unfolding plus
plus-lower infinite b x v le = IsDouble-le_infinite x v
plus-lower (finite f) infinite x v le = IsDouble-le_infinite x v
plus-lower (finite f) (finite g) x v le = nearest-ge _ 1 x (omega arith) v (omega (arith, le))

-- At most so many units, if the value is a number and not negative.
abbrev pub AtMost : ℕ → F64 → Type 0
AtMost z nan = Unit {0}
AtMost z (number true a) = Unit {0}
AtMost z (number false a) = units a ≤ z

pub minus-AtMost :
    (a b : Magnitude) (z : ℕ)
    → units a < units infinite
    → IsDouble z
    → units a ≤ units b + z
    → AtMost z (minus false a b)
unfolding minus
minus-AtMost infinite b z h v le = absurd (omega (arith, h))
minus-AtMost (finite f) infinite z h v le = tt
minus-AtMost (finite f) (finite g) z h v le =
    elim (Bool-cases (ltb (units (finite g)) (units (finite f)))) [
      | inl above ↦ rw above (nearest-le _ 1 z (omega arith) v (omega (arith, le)))
      | inr not_above ↦ elim (Bool-cases (ltb (units (finite f)) (units (finite g)))) [
        | inl under ↦ rw (not_above, under) tt
        | inr same ↦ rw (not_above, same) (rw zero-units (omega arith))
      ]
    ]

pub plus-upper :
    (a b : Magnitude) (x : ℕ)
    → units a < units infinite
    → units b < units infinite
    → IsDouble x
    → units a + units b ≤ x
    → units (plus a b) ≤ x
unfolding plus
plus-upper infinite b x h l v le = absurd (omega (arith, h))
plus-upper (finite f) infinite x h l v le = absurd (omega (arith, l))
plus-upper (finite f) (finite g) x h l v le = nearest-le _ 1 x (omega arith) v (omega (arith, le))

minus-upper :
    (a b : Magnitude) (x : ℕ)
    → units a < units infinite
    → units b ≤ units a
    → IsDouble x
    → units a ≤ x
    → (c : Magnitude) × (minus false a b ≡ number false c) × (units c ≤ x)
unfolding minus
minus-upper infinite b x h l v le = absurd (omega (arith, h))
minus-upper (finite f) infinite x h l v le = absurd (omega (arith, h, l))
minus-upper (finite f) (finite g) x h l v le =
    elim (Bool-cases (ltb (units (finite g)) (units (finite f)))) [
      | inl above ↦ (
        nearest (units (finite f) - units (finite g)) 1,
        rw above refl,
        nearest-le _ 1 x (omega arith) v (omega (arith, le)),
      )
      | inr not_above ↦
          let same : ltb (units (finite f)) (units (finite g)) ≡ false = ground arith in
          (nearest 0 1, rw (not_above, same) refl, rw zero-units (omega arith))
    ]

one-finite : units (nearest one_unit 1) < units infinite
one-finite = rw one-units (omega (arith, whole-lt-infinite 1 (omega arith)))

one-IsDouble : IsDouble one_unit
one-IsDouble = rw one-units at (units-IsDouble (nearest one_unit 1))

-- One less a slippage from 0 to 1 is such a factor again.
pub one_less :
    (s : F64)
    → binary64.zero_f ≼ s
    → s ≼ binary64.one_f
    → (c : Magnitude) × (add binary64.one_f (negate s) ≡ number false c) × (units c ≤ one_unit)
unfolding add
one_less nan low high = absurd (not_nan binary64.one_f high)
one_less (number true b) low high = (
  plus (nearest one_unit 1) b,
  refl,
  plus-upper (nearest one_unit 1) b one_unit one-finite (rw (not_below b low) infinite-pos)
      one-IsDouble (rw (one-units, not_below b low) (omega arith)),
)
one_less (number false b) low high =
    minus-upper (nearest one_unit 1) b one_unit one-finite (rw one-units (below_one b high))
      one-IsDouble (rw one-units (omega arith))

negative-AtMost : (a : Option Magnitude) (z : ℕ) → AtMost z (signed true a)
negative-AtMost none z = tt
negative-AtMost (some a) z = tt

pub mul-AtMost :
    (x : F64) (c : Magnitude) (z : ℕ)
    → z < units infinite
    → units c ≤ one_unit
    → AtMost z x
    → AtMost z (mul x (number false c))
unfolding mul
mul-AtMost nan c z fin h le = tt
mul-AtMost (number true a) c z fin h le = negative-AtMost (times a c) z
mul-AtMost (number false a) c z fin h le =
    let (d, product, below) = times-le a c (omega (arith, le, fin)) h in
    rw product (omega (arith, below, le))

pub max-AtMost : (x : F64) (z : ℕ) → AtMost z x → AtMost z (max x binary64.zero_f)
unfolding max
max-AtMost nan z h = rw zero-units (omega arith)
max-AtMost (number s a) z h = elim (Bool-cases (lt (number s a) binary64.zero_f)) [
  | inl less ↦ rw less (rw zero-units (omega arith))
  | inr not_less ↦ rw not_less h
]

rounding-le : (a n u q : ℕ) → u ≡ 4 * q → 0 < q → a ≤ (4 * n + 1) * q → (2 * a + u) / (2 * u) ≤ n
rounding-le a n u q four there h =
    let scaled : (n + 1) * (2 * u) ≡ 8 * (n * q) + 8 * q = rw four (omega arith) in
    let within : (2 * a + u) / (2 * u) < n + 1 =
      (div-lt_iff_lt-mul {k = 2 * u} (omega (arith, four, there))).1
        (rw scaled (omega (arith, four, there, h))) in
    omega (arith, within)

-- A number of at most a whole number and a quarter rounds to at most the whole number.
pub half_away-le :
    (a : Magnitude) (n : ℕ)
    → n ≤ 2 ^ 50
    → units a < units infinite
    → units a ≤ (4 * n + 1) * quarter
    → units (half_away a) ≤ n * one_unit
unfolding half_away
half_away-le infinite n small fin h = absurd (omega (arith, fin))
half_away-le (finite f) n small fin h =
    let q = quarter in
    let most : (2 * units (finite f) + one_unit) / (2 * one_unit) ≤ n =
      rounding-le (units (finite f)) n one_unit q one_unit-eq quarter-pos h in
    nearest-le _ 1 (n * one_unit) (omega arith) (whole-IsDouble n (omega (arith, small)))
      (omega (arith, mul_le_right one_unit most))
