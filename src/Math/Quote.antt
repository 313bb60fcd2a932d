-- ===== src/Math/Quote.antt =====
-- The quotes of src/math.rs: what a swap pays, what it charges, and the bound for its instruction.
pub mod Sell
pub mod Buy
pub mod Slippage
use pump_swap_sdk.Prelude.{
  ℕ, ◌+◌, ◌-◌, ◌*◌, ◌/◌, Bool, not, ◌||◌, Option, none, some, ◌==◌, if◌then◌else◌, saturate,
  saturating_add, mul_u128, add_u128,
}
use pump_swap_sdk.Constants.{wrapped_sol_mint}
use pump_swap_sdk.State.Pool.{PoolInfo, sol_is_base, effective_reserves}
use pump_swap_sdk.State.Fees.{Fees, fee_on, total_bps}
use pump_swap_sdk.Math.Float.{Float, clamp}
use pump_swap_sdk.Math.Curve.{constant_product_out, constant_product_in}

pub record SwapQuote : Type 0 where
  pub gross_amount_out : ℕ
  pub fee : ℕ
  pub amount_out : ℕ
  pub min_amount_out : ℕ

pub record BuyExactOutQuote : Type 0 where
  pub quote_amount_in : ℕ
  pub fee : ℕ
  pub total_quote_in : ℕ
  pub max_quote_in : ℕ

unfoldable pub is_tiered_fee_pool : PoolInfo → Bool
is_tiered_fee_pool pool = not (pool.coin_creator == 0)

unfoldable pub can_quote_fees : PoolInfo → Bool
unfolding is_tiered_fee_pool
can_quote_fees pool = not (is_tiered_fee_pool pool) || pool.quote_mint == wrapped_sol_mint

-- The amount that the program charges fees on, out of a spend that includes them.
unfoldable pub charged_amount : ℕ → Fees → ℕ
charged_amount quote_amount_in fees =
    saturate (mul_u128 quote_amount_in 10_000 / add_u128 10_000 (total_bps fees))

module _ {F : Type 0} ⦃d : Float F⦄ where
  open d use {zero_f, one_f, of_u64, to_u64, add, sub, mul, floor, ceil, max, min}

  unfoldable pub apply_slippage : ℕ → F → ℕ
  apply_slippage amount slippage =
      let factor = clamp (sub one_f slippage) zero_f one_f in
      to_u64 (max (floor (mul (of_u64 amount) factor)) zero_f)

  unfoldable pub quote_sell : ℕ → ℕ → ℕ → Fees → F → SwapQuote
  quote_sell base_amount_in base_reserve quote_reserve fees slippage =
      let gross = constant_product_out base_amount_in base_reserve quote_reserve in
      let fee = fee_on fees gross in
      let amount_out = gross - fee in
      record {
        gross_amount_out = gross;
        fee = fee;
        amount_out = amount_out;
        min_amount_out = apply_slippage amount_out slippage;
      }

  unfoldable pub quote_buy_exact_quote_in : ℕ → ℕ → ℕ → Fees → F → SwapQuote
  quote_buy_exact_quote_in quote_amount_in base_reserve quote_reserve fees slippage =
      let fee = fee_on fees (charged_amount quote_amount_in fees) in
      let net = quote_amount_in - fee in
      let curve_in = net - 1 in
      let amount_out = constant_product_out curve_in quote_reserve base_reserve in
      record {
        gross_amount_out = amount_out;
        fee = fee;
        amount_out = amount_out;
        min_amount_out = apply_slippage amount_out slippage;
      }

  -- `(total_quote_in as f64 * factor).ceil() as u64`
  unfoldable pub raise_by_slippage : ℕ → F → ℕ
  raise_by_slippage amount slippage =
      let factor = min (add one_f (max slippage zero_f)) (of_u64 0xffff_ffff) in
      to_u64 (ceil (mul (of_u64 amount) factor))

  unfoldable pub quote_buy_exact_base_out : ℕ → ℕ → ℕ → Fees → F → Option BuyExactOutQuote
  quote_buy_exact_base_out base_amount_out base_reserve quote_reserve fees slippage =
      elim (constant_product_in base_amount_out quote_reserve base_reserve) [
        | none ↦ none
        | some quote_amount_in ↦
            let fee = fee_on fees quote_amount_in in
            let total = saturating_add quote_amount_in fee in
            some (record {
              quote_amount_in = quote_amount_in;
              fee = fee;
              total_quote_in = total;
              max_quote_in = raise_by_slippage total slippage;
            })
      ]

  unfoldable pub token_buy_quote : ℕ → ℕ × ℕ → PoolInfo → Fees → F → SwapQuote
  token_buy_quote sol_in reserves pool fees slippage =
      let (base_reserve, quote_reserve) = effective_reserves pool reserves.0 reserves.1 in
      if sol_is_base pool
      then quote_sell sol_in base_reserve quote_reserve fees slippage
      else quote_buy_exact_quote_in sol_in base_reserve quote_reserve fees slippage

  unfoldable pub token_sell_quote : ℕ → ℕ × ℕ → PoolInfo → Fees → F → SwapQuote
  token_sell_quote tokens_in reserves pool fees slippage =
      let (base_reserve, quote_reserve) = effective_reserves pool reserves.0 reserves.1 in
      if sol_is_base pool
      then quote_buy_exact_quote_in tokens_in base_reserve quote_reserve fees slippage
      else quote_sell tokens_in base_reserve quote_reserve fees slippage

  unfoldable pub buy_amount_out : ℕ → ℕ × ℕ → PoolInfo → Fees → F → ℕ
  unfolding token_buy_quote
  buy_amount_out amount_in reserves pool fees slippage =
      (token_buy_quote amount_in reserves pool fees slippage).min_amount_out

  unfoldable pub sell_amount_out : ℕ → ℕ × ℕ → PoolInfo → Fees → F → ℕ
  unfolding token_sell_quote
  sell_amount_out amount_in reserves pool fees slippage =
      (token_sell_quote amount_in reserves pool fees slippage).min_amount_out
