-- ===== src/Math/Quote/Sell.antt =====
-- `quote_sell` of src/math.rs: what leaves the pool, and how it is split.
use pump_swap_sdk.Prelude.{ℕ, ◌+◌, ◌-◌, ◌*◌, ◌^◌, ◌≤◌, ◌<◌, ◌≡◌, min, IsU64, div_ceil, arith}
use pump_swap_sdk.State.Fees.{Fees, total_bps}
use pump_swap_sdk.State.Fees.Rounding.{IsSchedule, fee_on_rounding}
use pump_swap_sdk.Math.Float.{Float, IsIeee}
use pump_swap_sdk.Math.Curve.{constant_product_out}
use pump_swap_sdk.Math.Curve.Bounds.{constant_product_out_invariant}
use pump_swap_sdk.Math.Quote.{quote_sell}
use pump_swap_sdk.Math.Quote.Slippage.{apply_slippage-le}

module _ {F : Type 0} ⦃d : Float F⦄ where
  -- For `u64` inputs, a pool that is not empty and a schedule of at most 100%: the gross payout fits
  -- the quote reserve and does not shrink the product of the reserves; the fee is the combined rate
  -- rounded up, or at most two more; the caller gets the gross payout less the fee, and nothing
  -- where the fee is larger.
  pub quote_sell_lem :
      (base_in base quote : ℕ) (fees : Fees) (slippage : F)
      → IsU64 base_in
      → IsU64 base
      → IsU64 quote
      → 0 < base + base_in
      → IsSchedule fees
      → let q = quote_sell base_in base quote fees slippage in
        let single = div_ceil (q.gross_amount_out * total_bps fees) 10_000 in
        (q.gross_amount_out ≤ quote)
        × (base * quote ≤ (base + base_in) * (quote - q.gross_amount_out))
        × (single ≤ q.fee)
        × (q.fee ≤ single + 2)
        × (q.amount_out + min q.fee q.gross_amount_out ≡ q.gross_amount_out)
  unfolding quote_sell
  quote_sell_lem base_in base quote fees slippage hi hb hq some_there s =
      let gross = constant_product_out base_in base quote in
      let (below, keeps) = constant_product_out_invariant base_in base quote hi hb hq some_there in
      let (least, most) = fee_on_rounding fees gross (omega arith) s in
      (below, keeps, least, most, omega arith)

  -- For IEEE 754 numbers: the minimum passed to the instruction never exceeds the expected fill that
  -- an `f64` holds exactly.
  pub quote_sell-min-le :
      (laws : IsIeee F) (base_in base quote : ℕ) (fees : Fees) (slippage : F)
      → (quote_sell base_in base quote fees slippage).amount_out ≤ 2 ^ 53
      → (quote_sell base_in base quote fees slippage).min_amount_out
        ≤ (quote_sell base_in base quote fees slippage).amount_out
  unfolding quote_sell
  quote_sell-min-le laws base_in base quote fees slippage h = apply_slippage-le laws _ slippage h
