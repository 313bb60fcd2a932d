-- ===== src/Math/Binary64/Comparison.antt =====
-- The order of binary64, and `max` and `min`, which pick by it.
use pump_swap_sdk.Prelude.{
  ℕ, ◌≤◌, ◌<◌, ◌≡◌, refl, ◌⊎◌, inl, inr, Bool, true, false, Bool-cases, ◌&&◌, ◌==◌, arith,
}
use pump_swap_sdk.Math.Float.{◌≼◌}
use pump_swap_sdk.Math.Binary64.{Magnitude, F64, number, nan, units, nearest}
use pump_swap_sdk.Math.Binary64.Magnitudes.{one_unit-pos, one-units, leb-of-le, le-of-leb}
use pump_swap_sdk.Math.Binary64.Arithmetic.{binary64, one_unit, le, lt, max, min}

-- What the order says of a number that is not below zero, one that is at most one, and one that is at
-- least one.
pub not_below : (b : Magnitude) → binary64.zero_f ≼ number true b → units b ≡ 0
unfolding le
not_below b h = ground arith

pub below_one : (b : Magnitude) → number false b ≼ binary64.one_f → units b ≤ one_unit
unfolding le
below_one b h = rw one-units at (le-of-leb _ _ h)

pub above_one : (b : Magnitude) → binary64.one_f ≼ number false b → one_unit ≤ units b
unfolding le
above_one b h = rw one-units at (le-of-leb _ _ h)

both-zero : (m n : ℕ) → 0 < m → ¬ ((m == 0 && n == 0) ≡ true)
both-zero m n h k = ground arith

pub not_nan : (y : F64) → ¬ (nan ≼ y)
unfolding le
not_nan y h = cc

pub nan_never : (s : Bool) (a : Magnitude) → ¬ (number s a ≼ nan)
unfolding le
nan_never true a h = cc
nan_never false a h = cc

pub minus-above_one : (b : Magnitude) → ¬ (binary64.one_f ≼ number true b)
unfolding le
minus-above_one b h = both-zero (units (nearest one_unit 1)) (units b) (rw one-units one_unit-pos) h

pub f64-le_trans : (x y z : F64) → x ≼ y → y ≼ z → x ≼ z
unfolding le
f64-le_trans nan y z h k = absurd (cc)
f64-le_trans (number s a) nan z h k = absurd (ground arith)
f64-le_trans (number s a) (number t b) nan h k = absurd (ground arith)
f64-le_trans (number true a) (number true b) (number true c) h k = ground arith
f64-le_trans (number true a) (number true b) (number false c) h k = refl
f64-le_trans (number true a) (number false b) (number true c) h k = ground arith
f64-le_trans (number true a) (number false b) (number false c) h k = refl
f64-le_trans (number false a) (number true b) (number true c) h k = ground arith
f64-le_trans (number false a) (number true b) (number false c) h k = ground arith
f64-le_trans (number false a) (number false b) (number true c) h k = ground arith
f64-le_trans (number false a) (number false b) (number false c) h k = ground arith

pub f64-le_of_not_lt : (x y : F64) → x ≼ x → y ≼ y → lt x y ≡ false → y ≼ x
unfolding le lt
f64-le_of_not_lt nan y h k e = absurd (cc)
f64-le_of_not_lt (number s a) nan h k e = absurd (cc)
f64-le_of_not_lt (number true a) (number true b) h k e = ground arith
f64-le_of_not_lt (number true a) (number false b) h k e = ground arith
f64-le_of_not_lt (number false a) (number true b) h k e = refl
f64-le_of_not_lt (number false a) (number false b) h k e = ground arith

pub number-le_self : (s : Bool) (a : Magnitude) → number s a ≼ number s a
unfolding le
number-le_self true a = ground arith
number-le_self false a = ground arith

pub f64-num_of_le : (x y : F64) → x ≼ y → (x ≼ x) × (y ≼ y)
f64-num_of_le nan y h = absurd (not_nan y h)
f64-num_of_le (number s a) nan h = absurd (nan_never s a h)
f64-num_of_le (number s a) (number t b) h = (number-le_self s a, number-le_self t b)

pub minus-le : (a b : Magnitude) → number true a ≼ number false b
unfolding le
minus-le a b = refl

pub plus-le : (a b : Magnitude) → units a ≤ units b → number false a ≼ number false b
unfolding le
plus-le a b h = leb-of-le (units a) (units b) h

pub minuses-le : (a b : Magnitude) → units b ≤ units a → number true a ≼ number true b
unfolding le
minuses-le a b h = leb-of-le (units b) (units a) h

pub f64-max_cases :
    (x y : F64) → y ≼ y → ((max x y ≡ y) ⊎ ((max x y ≡ x) × (x ≼ x))) × (y ≼ max x y)
unfolding max
f64-max_cases nan y h = (inl refl, h)
f64-max_cases (number s a) nan h = absurd (not_nan nan h)
f64-max_cases (number s a) (number t b) h = elim (Bool-cases (lt (number s a) (number t b))) [
  | inl less ↦ (inl (rw less refl), rw less h)
  | inr not_less ↦
      let own = number-le_self s a in
      (
        inr (rw not_less refl, own),
        rw not_less (f64-le_of_not_lt (number s a) (number t b) own h not_less),
      )
]

pub f64-min_cases : (x y : F64) → x ≼ x → y ≼ y → ((min x y ≡ x) ⊎ (min x y ≡ y)) × (min x y ≼ y)
unfolding min
f64-min_cases nan y h k = absurd (not_nan nan h)
f64-min_cases (number s a) nan h k = absurd (not_nan nan k)
f64-min_cases (number s a) (number t b) h k = elim (Bool-cases (lt (number t b) (number s a))) [
  | inl less ↦ (inr (rw less refl), rw less k)
  | inr not_less ↦ (
    inl (rw not_less refl),
    rw not_less (f64-le_of_not_lt (number t b) (number s a) k h not_less),
  )
]
