-- ===== src/Math/Float.antt =====
-- The `f64` operations that src/math.rs uses, as an interface, and the facts of IEEE 754 and of
-- Rust's conversions that the theorems on slippage need.
use pump_swap_sdk.Prelude.{ℕ, ◌^◌, ◌≤◌, ◌≡◌, ◌⊎◌, Bool, true, false, if◌then◌else◌, ◌+◌, ◌<◌, IsU64}

pub record Float (F : Type 0) : Type 0 where
  pub zero_f : F
  pub one_f : F
  -- the literal that stands for a quotient
  pub literal : ℕ → ℕ → F
  -- `as f64` from a `u64`, and `as u64`
  pub of_u64 : ℕ → F
  pub to_u64 : F → ℕ
  pub add : F → F → F
  pub sub : F → F → F
  pub mul : F → F → F
  pub div : F → F → F
  pub floor : F → F
  pub ceil : F → F
  pub round : F → F
  pub max : F → F → F
  pub min : F → F → F
  pub lt : F → F → Bool
  pub le : F → F → Bool

infix 4 ◌≼◌
abbrev pub ◌≼◌ : {F : Type 0} ⦃d : Float F⦄ → F → F → Type 0
◌≼◌ ⦃d⦄ x y = d.le x y ≡ true

-- `f64::clamp`: the two comparisons leave a NaN as it is.
abbrev pub clamp : {F : Type 0} ⦃d : Float F⦄ → F → F → F → F
clamp ⦃d⦄ x low high =
    let raised = if d.lt x low then low else x in if d.lt high raised then high else raised

-- A number is a value that is `<=` itself; the one value that is not is NaN.
pub record IsIeee (F : Type 0) ⦃d : Float F⦄ : Type 0 where
  pub zero_num : d.zero_f ≼ d.zero_f
  pub zero_le_one : d.zero_f ≼ d.one_f
  pub le_trans : (x y z : F) → x ≼ y → y ≼ z → x ≼ z
  pub le_of_not_lt : (x y : F) → x ≼ x → y ≼ y → d.lt x y ≡ false → y ≼ x
  pub num_of_le : (x y : F) → x ≼ y → (x ≼ x) × (y ≼ y)
  -- conversions
  pub of_u64_nonneg : (n : ℕ) → d.zero_f ≼ d.of_u64 n
  pub of_u64_exact : (n : ℕ) → n ≤ 2 ^ 53 → d.to_u64 (d.of_u64 n) ≡ n
  pub of_u64_near : (n : ℕ) → IsU64 n → d.to_u64 (d.of_u64 n) < n + 2 ^ 11
  pub one_le_of_u64 : (n : ℕ) → 1 ≤ n → d.one_f ≼ d.of_u64 n
  pub to_u64_mono : (x y : F) → x ≼ y → d.to_u64 x ≤ d.to_u64 y
  -- rounding to the nearest value keeps an order with a value
  pub mul_le :
      (n : ℕ) (f : F) → IsU64 n → d.zero_f ≼ f → f ≼ d.one_f → d.mul (d.of_u64 n) f ≼ d.of_u64 n
  pub mul_ge :
      (n k : ℕ) (f : F)
      → n ≤ 2 ^ 53
      → k ≤ 2 ^ 53
      → d.one_f ≼ f
      → f ≼ d.of_u64 k
      → d.of_u64 n ≼ d.mul (d.of_u64 n) f
  pub add_ge : (x y : F) → d.zero_f ≼ x → d.zero_f ≼ y → x ≼ d.add x y
  pub floor_le : (x : F) → x ≼ x → d.floor x ≼ x
  pub ceil_ge : (x : F) → x ≼ x → x ≼ d.ceil x
  -- a NaN operand gives NaN
  pub mul_num : (x f : F) → d.mul x f ≼ d.mul x f → f ≼ f
  pub floor_num : (x : F) → d.floor x ≼ d.floor x → x ≼ x
  -- `max` and `min` answer an operand, the other one if one is NaN
  pub max_cases :
      (x y : F) → y ≼ y → ((d.max x y ≡ y) ⊎ ((d.max x y ≡ x) × (x ≼ x))) × (y ≼ d.max x y)
  pub min_cases : (x y : F) → x ≼ x → y ≼ y → ((d.min x y ≡ x) ⊎ (d.min x y ≡ y)) × (d.min x y ≼ y)
