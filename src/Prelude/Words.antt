-- ===== src/Prelude/Words.antt =====
-- Rust's machine integers as native numbers, with the wrap or the saturation of each operation.
use Prim.Native.Nat.{ℕ, ◌+◌, ◌*◌, ◌/◌, ◌%◌, ◌^◌, ◌≤◌, ◌<◌}
use mathlib.Core.Path.{◌≡◌}
use native.Mathlib.Omega.{arith}
use native.Mathlib.Nat.{le_refl, mul-le-mul, mod-eq_of_lt}
use pump_swap_sdk.Prelude.Tests.{ltb, leb, if◌then◌else◌}

abbrev pub u64_max : ℕ
u64_max = 0xffff_ffff_ffff_ffff

abbrev pub IsU64 : ℕ → Type 0
IsU64 n = n < 2 ^ 64

-- `u64::try_from(n).unwrap_or(u64::MAX)`
abbrev pub saturate : ℕ → ℕ
saturate n = if leb n u64_max then n else u64_max

-- `u64::saturating_add`; `saturating_sub` is the subtraction of ℕ.
abbrev pub saturating_add : ℕ → ℕ → ℕ
saturating_add a b = saturate (a + b)

-- `u128` products and sums, with the wrap of a release build.
unfoldable pub mul_u128 : ℕ → ℕ → ℕ
mul_u128 a b = a * b % 2 ^ 128

unfoldable pub add_u128 : ℕ → ℕ → ℕ
add_u128 a b = (a + b) % 2 ^ 128

-- `u128::div_ceil`
abbrev pub div_ceil : ℕ → ℕ → ℕ
div_ceil n d = if ltb 0 (n % d) then n / d + 1 else n / d

pub mul_u128-eq : (a b : ℕ) → IsU64 a → IsU64 b → mul_u128 a b ≡ a * b
unfolding mul_u128
mul_u128-eq a b ha hb = mod-eq_of_lt (omega (arith, mul-le-mul (fits a ha) (fits b hb)))
  where
    fits : (n : ℕ) → IsU64 n → n ≤ u64_max
    fits n h = omega arith

pub add_u128-eq : (a b : ℕ) → IsU64 a → IsU64 b → add_u128 a b ≡ a + b
unfolding add_u128
add_u128-eq a b ha hb = omega arith

pub mul_le_left : (a : ℕ) {b c : ℕ} → b ≤ c → a * b ≤ a * c
mul_le_left a h = mul-le-mul (le_refl a) h

pub mul_le_right : {a b : ℕ} (c : ℕ) → a ≤ b → a * c ≤ b * c
mul_le_right c h = mul-le-mul h (le_refl c)
