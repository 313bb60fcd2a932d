-- ===== src/State/Pool/Sides.antt =====
-- The reserves of src/state.rs that the program prices against.
use pump_swap_sdk.Prelude.{ℕ, ◌^◌, ◌≡◌, min, IsU64, u64_max, arith}
use pump_swap_sdk.Prelude.Int.{ℤ, pos, negsuc, ◌+ℤ◌, IsSigned}
use pump_swap_sdk.State.Pool.{PoolInfo, effective_reserves}

-- The `u64` that is nearest to an integer.
abbrev pub nearest_u64 : ℤ → ℕ
nearest_u64 (pos n) = min n u64_max
nearest_u64 (negsuc n) = 0

-- For a `u64` vault balance and an `i128` adjustment the base reserve passes through, and the quote
-- reserve is the `u64` nearest to their exact sum, also where the `i128` sum saturates.
pub effective_reserves_lem :
    (p : PoolInfo) (base_reserve quote_reserve : ℕ)
    → IsU64 quote_reserve
    → IsSigned (2 ^ 127) p.virtual_quote_reserves
    → effective_reserves p base_reserve quote_reserve
      ≡ (base_reserve, nearest_u64 (pos quote_reserve +ℤ p.virtual_quote_reserves))
unfolding effective_reserves ◌+ℤ◌
effective_reserves_lem p base_reserve quote_reserve h v = ground arith
