-- ===== src/Math/Curve/Floating/Steps.antt =====
-- The first steps of `calc_amount_out` of src/math.rs, from below: the product of the reserves, their
-- quotient by the sum, and one more.
use native.Mathlib.Nat.{
  div-mul-le_self, lt-div-mul-add, div-le_of_le-mul, one-le-pow, mul-pos, mul-le-mul, le_of_lt,
  le_antisymm,
}
use pump_swap_sdk.Prelude.{
  ℕ, zero, suc, ◌+◌, ◌-◌, ◌*◌, ◌/◌, ◌^◌, ◌≤◌, ◌<◌, ◌≡◌, refl, ap, ◌∙◌, ◌⊎◌, inl, inr, some,
  mul_le_right, arith,
}
use pump_swap_sdk.Math.Binary64.{Magnitude, units, nearest, infinite}
use pump_swap_sdk.Math.Binary64.Nearest.{IsDouble, doubled, lt-or-le}
use pump_swap_sdk.Math.Binary64.Magnitudes.{
  one_unit-pos, one-units, whole-IsDouble, whole-lt-infinite,
}
use pump_swap_sdk.Math.Binary64.Estimates.{
  quarter, one_unit-eq, quarters-IsDouble, scaled-IsDouble, times-lower, over-lower, plus-lower,
  plus-upper,
}
use pump_swap_sdk.Math.Binary64.Arithmetic.{binary64, one_unit, times, over, plus}

-- The scale of a reserve: a power of two of at most a quarter of it, or one.
pub scale :
    (j n : ℕ) → n < 8 * 2 ^ j → (k : ℕ) × (k ≤ j) × (n < 8 * 2 ^ k) × ((k ≡ 0) ⊎ (4 * 2 ^ k ≤ n))
scale zero n h = (zero, omega arith, h, inl refl)
scale (suc j) n h = elim (lt-or-le n (8 * 2 ^ j)) [
  | inl below ↦ let (k, le, under, from) = scale j n below in (k, omega (arith, le), under, from)
  | inr above ↦ (suc j, omega arith, h, inr (omega (arith, above, doubled j)))
]

-- A binary64 below a product of reserves, by at most a quarter of the first.
pub record Below (r out : ℕ) : Type 0 where
  pub g : ℕ
  pub is_double : IsDouble (g * one_unit)
  pub near : 4 * (r * out) ≤ 4 * g + r
  pub under : g ≤ r * out

near_power :
    (p r t k : ℕ) → p < t * 2 ^ k + 2 ^ k → (k ≡ 0) ⊎ (4 * 2 ^ k ≤ r) → 4 * p ≤ 4 * (t * 2 ^ k) + r
near_power p r t k h (inl first) =
    let one : 2 ^ k ≡ 1 = rw first refl in
    let exact : p ≤ t * 2 ^ k = omega (arith, one, h) in omega (arith, exact)
near_power p r t k h (inr small) = omega (arith, h, small)

pub below : (r out : ℕ) → r ≤ 2 ^ 53 → out ≤ 2 ^ 50 → Below r out
below r out hr ho =
    let (k, le, under, from) = scale 51 r (omega (arith, hr)) in
    let power = 2 ^ k in
    let t = r * out / power in
    let within : r * out ≤ 8 * power * 2 ^ 50 = mul-le-mul (le_of_lt under) ho in
    let small : t ≤ 2 ^ 53 = div-le_of_le-mul power (omega (arith, within)) in
    record {
      g = t * power;
      is_double = scaled-IsDouble t k small le;
      near = near_power (r * out) r t k (lt-div-mul-add (one-le-pow k 2 (omega arith))) from;
      under = div-mul-le_self (r * out) power;
    }

-- The quotient of the rounded product is above a whole number less a quarter: `m` is what the payout
-- `y` leaves of the reserve.
pub quotient_near :
    (a r out y m g : ℕ)
    → out ≡ y + m
    → out * a < y * (r + a) + (r + a)
    → 4 * (r * out) ≤ 4 * g + r
    → (4 * m - 5) * (r + a) ≤ 4 * g
quotient_near a r out y zero g split floor near = omega arith
quotient_near a r out y (suc zero) g split floor near = omega arith
quotient_near a r out y (suc (suc j)) g split floor near =
    let left : 4 * suc (suc j) - 5 ≡ 4 * j + 3 = omega arith in
    let spent : out * a ≡ y * a + j * a + 2 * a = ap (λ (t : ℕ). t * a) split ∙ omega arith in
    let held : r * out ≡ y * r + j * r + 2 * r = ap (λ (t : ℕ). r * t) split ∙ omega arith in
    rw left (omega (arith, spent, held, floor, near))

squared_le : (g n u : ℕ) → g ≤ n → g * u * u ≤ n * (u * u)
squared_le g n u h = omega (arith, mul_le_right (u * u) h)

squares : (r out u : ℕ) → r * u * (out * u) ≡ r * out * (u * u)
squares r out u = omega arith

-- The product of two reserves, from below.
pub product_low :
    (r out : ℕ) (a b : Magnitude) (low : Below r out)
    → units a ≡ r * one_unit
    → units b ≡ out * one_unit
    → units a < units infinite
    → units b < units infinite
    → (p : Magnitude) × (times a b ≡ some p) × (low.g * one_unit ≤ units p)
product_low r out a b low left right h l =
    times-lower a b (low.g * one_unit) h l low.is_double
      (rw (left, right, squares r out one_unit) (squared_le low.g (r * out) one_unit low.under))

-- The sum of two whole numbers is exact.
pub sum_exact :
    (r n : ℕ) (a b : Magnitude)
    → r + n ≤ 2 ^ 53
    → units a ≡ r * one_unit
    → units b ≡ n * one_unit
    → units a < units infinite
    → units b < units infinite
    → units (plus a b) ≡ (r + n) * one_unit
sum_exact r n a b small left right h l =
    let v = whole-IsDouble (r + n) small in
    let whole : units a + units b ≡ (r + n) * one_unit = omega (arith, left, right) in
    le_antisymm (plus-upper a b ((r + n) * one_unit) h l v (omega (arith, whole)))
      (plus-lower a b ((r + n) * one_unit) v (omega (arith, whole)))

quotient_le : (k n g u q : ℕ) → u ≡ 4 * q → k * n ≤ 4 * g → k * q * (n * u) ≤ g * u * u
quotient_le k n g u q four h = omega (arith, mul_le_right (q * u) h, ap (λ (t : ℕ). g * t * u) four)

-- One more than the quotient of a product by a sum, from below in quarters.
pub quotient_low :
    (k n g : ℕ) (p s : Magnitude)
    → k ≤ 2 ^ 52
    → 0 < n
    → n ≤ 2 ^ 53
    → units s ≡ n * one_unit
    → g * one_unit ≤ units p
    → k * n ≤ 4 * g
    → (q : Magnitude) × (over p s ≡ some q)
      × ((k + 4) * quarter ≤ units (plus q (nearest one_unit 1)))
quotient_low k n g p s small there most sum low h =
    let (q, quotient, low_q) =
      over-lower p s (k * quarter) (rw sum (mul-pos there one_unit-pos))
        (rw sum (whole-lt-infinite n most)) (quarters-IsDouble k (omega (arith, small)))
        (rw sum (
          omega (
            arith,
            quotient_le k n g one_unit quarter one_unit-eq h,
            mul_le_right one_unit low,
          ))) in
    (
      q,
      quotient,
      plus-lower q (nearest one_unit 1) ((k + 4) * quarter)
          (quarters-IsDouble (k + 4) (omega (arith, small)))
          (rw one-units (omega (arith, low_q, one_unit-eq))),
    )
