-- ===== src/Math/Binary64/Magnitudes.antt =====
-- The units of binary64 results: zero, one, whole numbers, products, sums and roundings.
use native.Mathlib.Nat.{div-mul-le_self, lt-div-mul-add, one-le-pow, le_antisymm}
use pump_swap_sdk.Prelude.{
  ℕ, ◌+◌, ◌-◌, ◌*◌, ◌/◌, ◌^◌, ◌≤◌, ◌<◌, ◌≡◌, refl, true, false, some, leb, mul_le_left,
  mul_le_right, IsU64, arith,
}
use pump_swap_sdk.Math.Binary64.{Magnitude, finite, infinite, number, units, nearest, last_power}
use pump_swap_sdk.Math.Binary64.Nearest.{IsDouble}
use pump_swap_sdk.Math.Binary64.Order.{nearest-le, nearest-ge, units-IsDouble, le-infinite}
use pump_swap_sdk.Math.Binary64.Arithmetic.{binary64, one_unit, times, plus, down, up, le}

zero-IsDouble : IsDouble 0
zero-IsDouble = record { m = 0; e = 0; small = omega arith; bounded = omega arith; value = refl }

pub whole-IsDouble : (n : ℕ) → n ≤ 2 ^ 53 → IsDouble (n * one_unit)
unfolding one_unit
whole-IsDouble n h = record { m = n; e = 1_074; small = h; bounded = omega arith; value = refl }

pub one_unit-pos : 0 < one_unit
unfolding one_unit
one_unit-pos = one-le-pow 1_074 2 (omega arith)

pub exact : (x : ℕ) → IsDouble x → units (nearest x 1) ≡ x
exact x v =
    le_antisymm (nearest-le x 1 x (omega arith) v (omega arith))
      (nearest-ge x 1 x (omega arith) v (omega arith))

pub zero-units : units (nearest 0 1) ≡ 0
zero-units = exact 0 zero-IsDouble

pub one-units : units (nearest one_unit 1) ≡ one_unit
one-units =
    let once : 1 * one_unit ≡ one_unit = omega arith in
    exact one_unit (rw once at (whole-IsDouble 1 (omega arith)))

pub of_u64-units : (n : ℕ) → n ≤ 2 ^ 53 → units (nearest (n * one_unit) 1) ≡ n * one_unit
of_u64-units n h = exact (n * one_unit) (whole-IsDouble n h)

-- An order of two numbers that are not negative.
nonneg-le : (a b : Magnitude) → le (number false a) (number false b) ≡ leb (units a) (units b)
unfolding le
nonneg-le a b = refl

pub leb-of-le : (a b : ℕ) → a ≤ b → leb a b ≡ true
leb-of-le a b h = ground arith

pub le-of-leb : (a b : ℕ) → leb a b ≡ true → a ≤ b
le-of-leb a b h = ground arith

pub down-le : (a : Magnitude) → units (down a) ≤ units a
unfolding down
down-le (finite f) =
    nearest-le _ 1 (units (finite f)) (omega arith) (units-IsDouble (finite f))
      (omega (arith, div-mul-le_self (units (finite f)) one_unit))
down-le infinite = omega arith

pub up-ge : (a : Magnitude) → units a ≤ units (up a)
unfolding up
up-ge (finite f) = nearest-ge _ 1 (units (finite f)) (omega arith) (units-IsDouble (finite f)) (
    omega
      (arith, lt-div-mul-add {a = units (finite f) + (one_unit - 1)} one_unit-pos, one_unit-pos))
up-ge infinite = omega arith

pub plus-ge : (a b : Magnitude) → units a ≤ units (plus a b)
unfolding plus
plus-ge (finite f) (finite g) =
    nearest-ge _ 1 (units (finite f)) (omega arith) (units-IsDouble (finite f)) (omega arith)
plus-ge (finite f) infinite = le-infinite (finite f)
plus-ge infinite b = omega arith

-- Whole numbers up to 2^53 are far from infinity.
pub whole-lt-infinite : (n : ℕ) → n ≤ 2 ^ 53 → n * one_unit < units infinite
unfolding one_unit units last_power
whole-lt-infinite n h = omega (arith, h)

far_from_infinite : 2 ^ 11 * 2 ^ 53 * one_unit < units infinite
unfolding one_unit units last_power
far_from_infinite = omega arith

-- A product by a factor of at most one.
pub times-le :
    (a b : Magnitude)
    → units a < units infinite
    → units b ≤ one_unit
    → (c : Magnitude) × (times a b ≡ some c) × (units c ≤ units a)
unfolding times
times-le infinite b h k = absurd (omega (arith, h))
times-le (finite f) infinite h k = absurd (omega (arith, k, whole-lt-infinite 1 (omega arith)))
times-le (finite f) (finite g) h k = (
  _,
  refl,
  nearest-le _ one_unit (units (finite f)) one_unit-pos (units-IsDouble (finite f))
      (mul_le_left (units (finite f)) k),
)

-- A product by a finite factor of at least one.
pub times-ge :
    (a b : Magnitude)
    → units a < units infinite
    → units b < units infinite
    → one_unit ≤ units b
    → (c : Magnitude) × (times a b ≡ some c) × (units a ≤ units c)
unfolding times
times-ge infinite b h l k = absurd (omega (arith, h))
times-ge (finite f) infinite h l k = absurd (omega (arith, l))
times-ge (finite f) (finite g) h l k = (
  _,
  refl,
  nearest-ge _ one_unit (units (finite f)) one_unit-pos (units-IsDouble (finite f))
      (mul_le_left (units (finite f)) k),
)

-- A zero is not infinite.
pub infinite-pos : 0 < units infinite
infinite-pos = omega (arith, whole-lt-infinite 0 (omega arith))

pub zero-plus : (a b : Magnitude) → units a ≡ 0 → units b ≡ 0 → units (plus a b) ≤ units a
unfolding plus
zero-plus infinite b h k = absurd (omega (arith, h, infinite-pos))
zero-plus (finite f) infinite h k = absurd (omega (arith, k, infinite-pos))
zero-plus (finite f) (finite g) h k =
    nearest-le _ 1 (units (finite f)) (omega arith) (units-IsDouble (finite f))
      (omega (arith, h, k))

-- A `u64` is at most the next multiple of 2^11, which is a binary64.
abbrev pub padded : ℕ → ℕ
padded n = (n + 2_047) / 2 ^ 11

padded-IsDouble : (n : ℕ) → IsU64 n → IsDouble (padded n * 2 ^ 11 * one_unit)
unfolding one_unit
padded-IsDouble n h = record {
  m = (n + 2_047) / 2 ^ 11;
  e = 1_085;
  small = omega (arith, h);
  bounded = omega arith;
  value = omega arith;
}

pub padded-lt : (n : ℕ) → padded n * 2 ^ 11 < n + 2 ^ 11
padded-lt n = omega arith

pub of_u64-le : (n : ℕ) → IsU64 n → units (nearest (n * one_unit) 1) ≤ padded n * 2 ^ 11 * one_unit
of_u64-le n h =
    let covered : n ≤ padded n * 2 ^ 11 = omega arith in
    nearest-le (n * one_unit) 1 (padded n * 2 ^ 11 * one_unit) (omega arith) (padded-IsDouble n h)
      (omega (arith, mul_le_right one_unit covered))

-- Converting a `u64` overflows nothing.
pub u64-finite : (n : ℕ) → IsU64 n → units (nearest (n * one_unit) 1) < units infinite
u64-finite n h =
    let most : padded n * 2 ^ 11 ≤ 2 ^ 11 * 2 ^ 53 = omega (arith, h) in
    omega (arith, of_u64-le n h, mul_le_right one_unit most, far_from_infinite)
