-- ===== src/Prelude/Division.antt =====
-- Division rounded up, as orders between products.
use Prim.Native.Nat.{ℕ, ◌+◌, ◌*◌, ◌%◌, ◌≤◌, ◌<◌}
use mathlib.Core.Logic.{◌↔◌, ◌⊎◌, inl, inr}
use native.Mathlib.Omega.{arith}
use native.Mathlib.Nat.{mod-lt, div-add-mod', le_trans}
use mathlib.Core.Path.{◌≡◌}
use mathlib.Core.Bool.{true, false}
use pump_swap_sdk.Prelude.Tests.{ltb, Bool-cases}
use pump_swap_sdk.Prelude.Words.{div_ceil, mul_le_right}

ltb→lt : (a b : ℕ) → ltb a b ≡ true → a < b
ltb→lt a b h = ground arith

ltb→le : (a b : ℕ) → ltb a b ≡ false → b ≤ a
ltb→le a b h = ground arith

pub div_ceil-mul : (m d : ℕ) → 0 < d → (m ≤ div_ceil m d * d) × (div_ceil m d * d < m + d)
div_ceil-mul m d h = elim (Bool-cases (ltb 0 (m % d))) [
  | inl some_left ↦ rw some_left (omega (arith, div-add-mod' m d, mod-lt m h, ltb→lt _ _ some_left))
  | inr none_left ↦ rw none_left (omega (arith, div-add-mod' m d, mod-lt m h, ltb→le _ _ none_left))
]

le-or-lt : (a b : ℕ) → (a ≤ b) ⊎ (b < a)
le-or-lt a b = omega arith

pub div_ceil-le_iff : (m d n : ℕ) → 0 < d → (div_ceil m d ≤ n) ↔ (m ≤ n * d)
div_ceil-le_iff m d n h = (
  λ k. le_trans (div_ceil-mul m d h).0 (mul_le_right d k),
  λ k. elim (le-or-lt (div_ceil m d) n) [
    | inl fine ↦ fine
    | inr more ↦ absurd (omega (arith, mul_le_right d more, div_ceil-mul m d h))
  ],
)
