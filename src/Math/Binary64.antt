-- ===== src/Math/Binary64.antt =====
-- The numbers of IEEE 754 binary64 that src/math.rs computes with: a significand below 2^53 times a
-- power of two, in units of 2^-1074, and the nearest of them to a quotient.
pub mod Nearest
pub mod Order
pub mod Arithmetic
pub mod Magnitudes
pub mod Comparison
pub mod Laws
pub mod Bounds
pub mod Estimates
pub mod Opposites
use pump_swap_sdk.Prelude.{
  ℕ, zero, suc, ◌+◌, ◌-◌, ◌*◌, ◌/◌, ◌%◌, ◌^◌, ◌≡◌, ◌⊎◌, Bool, true, false, refl, inl, inr, not,
  ◌&&◌, ltb, leb, ◌==◌, if◌then◌else◌, saturate,
}
use pump_swap_sdk.Math.Float.{Float}

-- The exponents of units run from 0 to 2045: the subnormals have the exponent 0.
pub record Finite : Type 0 where
  pub significand : ℕ
  pub exponent : ℕ
  pub is_small : ltb significand (2 ^ 53) ≡ true
  pub is_bounded : leb exponent 2_045 ≡ true

pub data Magnitude : Type 0 where
  finite : Finite → Magnitude
  infinite : Magnitude

-- A sign, true for minus, and a magnitude; or NaN.
pub data F64 : Type 0 where
  number : Bool → Magnitude → F64
  nan : F64

-- The power of the last exponent.
unfoldable pub last_power : ℕ
last_power = 2 ^ 2_045

-- The units of a magnitude; infinity stands where the exponents end.
unfoldable pub units : Magnitude → ℕ
units (finite f) = f.significand * 2 ^ f.exponent
units infinite = 2 ^ 53 * last_power

abbrev pub decided : (b : Bool) → (b ≡ true) ⊎ (b ≡ false)
decided true = inl refl
decided false = inr refl

abbrev pub pack_by :
    (significand exponent : ℕ)
    → (ltb significand (2 ^ 53) ≡ true) ⊎ (ltb significand (2 ^ 53) ≡ false)
    → (leb exponent 2_045 ≡ true) ⊎ (leb exponent 2_045 ≡ false)
    → Magnitude
pack_by significand exponent (inl small) (inl bounded) = finite (record {
  significand = significand;
  exponent = exponent;
  is_small = small;
  is_bounded = bounded;
})
pack_by significand exponent (inl small) (inr beyond) = infinite
pack_by significand exponent (inr wide) _ = infinite

unfoldable pub pack : ℕ → ℕ → Magnitude
pack significand exponent =
    pack_by significand exponent (decided (ltb significand (2 ^ 53))) (decided (leb exponent 2_045))

-- A significand that rounds up to 2^53 is half of that at the next exponent.
unfoldable pub settle : ℕ → ℕ → Magnitude
unfolding pack
settle significand exponent =
    if ltb significand (2 ^ 53)
    then pack significand exponent
    else pack (significand / 2) (suc exponent)

-- The integer nearest to a quotient, the even one of two that are as near.
unfoldable pub nearest_integer : ℕ → ℕ → ℕ
nearest_integer p d =
    let below = p / d in
    let left = 2 * (p % d) in
    if ltb left d then below else (if ltb d left then suc below else below + below % 2)

-- The least of the exponents left with which the quotient `p / d` has a significand below 2^53.
unfoldable pub fit : ℕ → ℕ → ℕ → ℕ → Magnitude
unfolding settle nearest_integer
fit zero exponent p d = infinite
fit (suc left) exponent p d = elim (ltb p (2 ^ 53 * d)) [
  | true ↦ settle (nearest_integer p d) exponent
  | false ↦ fit left (suc exponent) p (2 * d)
]

-- The magnitude nearest to `p / q` units.
unfoldable pub nearest : ℕ → ℕ → Magnitude
unfolding fit
nearest p q = fit 2_046 0 p q
