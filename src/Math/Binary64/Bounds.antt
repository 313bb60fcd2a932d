-- ===== src/Math/Binary64/Bounds.antt =====
-- The slippage bounds of src/math.rs on binary64, with no hypothesis on the arithmetic.
use native.Mathlib.Nat.{le_antisymm}
use pump_swap_sdk.Prelude.{
  ℕ, ◌+◌, ◌/◌, ◌^◌, ◌≤◌, ◌≡◌, some, IsU64, Bool-cases, inl, inr, leb, ◌==◌, if◌then◌else◌, saturate,
  mul_u128, add_u128, arith,
}
use pump_swap_sdk.State.Fees.{Fees}
use pump_swap_sdk.Math.Curve.{constant_product_out}
use pump_swap_sdk.Math.Quote.{
  BuyExactOutQuote, apply_slippage, quote_sell, quote_buy_exact_quote_in, quote_buy_exact_base_out,
}
use pump_swap_sdk.Math.Quote.Buy.{quote_buy_exact_base_out-max-ge}
use pump_swap_sdk.Math.Quote.Slippage.{apply_slippage-le, apply_slippage-lt}
use pump_swap_sdk.Math.Binary64.{F64}
use pump_swap_sdk.Math.Binary64.Arithmetic.{binary64, to_u64, of_u64, mul}
use pump_swap_sdk.Math.Binary64.Laws.{Binary64-IsIeee, f64-mul_comm}

-- How far the bound of an amount may be above it: not at all up to 2^53, where binary64 holds every
-- integer.
abbrev pub slack : ℕ → ℕ
slack amount = if leb amount (2 ^ 53) then 0 else 2_047

-- For every slippage, NaN and out-of-range values included: the minimum for a `u64` amount is at most
-- the amount, or at most 2047 above it where the amount is over 2^53.
pub apply_slippage_bound :
    (amount : ℕ) (slippage : F64)
    → IsU64 amount
    → apply_slippage amount slippage ≤ amount + slack amount
apply_slippage_bound amount slippage h = elim (Bool-cases (leb amount (2 ^ 53))) [
  | inl exact ↦
      let small : amount ≤ 2 ^ 53 = ground arith in
      rw exact (omega (arith, apply_slippage-le Binary64-IsIeee amount slippage small))
  | inr wide ↦ rw wide (omega (arith, apply_slippage-lt Binary64-IsIeee amount slippage h))
]

guarded-IsU64 : (n d : ℕ) → IsU64 (if d == 0 then 0 else saturate (n / d))
guarded-IsU64 n d = ground arith

constant_product_out-IsU64 : (a r out : ℕ) → IsU64 (constant_product_out a r out)
unfolding constant_product_out
constant_product_out-IsU64 a r out = guarded-IsU64 (mul_u128 out a) (add_u128 r a)

sold-IsU64 :
    (base_in base quote : ℕ) (fees : Fees) (slippage : F64)
    → IsU64 (quote_sell base_in base quote fees slippage).amount_out
unfolding quote_sell
sold-IsU64 base_in base quote fees slippage =
    omega (arith, constant_product_out-IsU64 base_in base quote)

bought-IsU64 :
    (quote_in base quote : ℕ) (fees : Fees) (slippage : F64)
    → IsU64 (quote_buy_exact_quote_in quote_in base quote fees slippage).amount_out
unfolding quote_buy_exact_quote_in
bought-IsU64 quote_in base quote fees slippage = constant_product_out-IsU64 _ quote base

-- For every input and every slippage, NaN and out-of-range values included: the minimum that a sell
-- quote or a quote for an exact spend passes to its instruction is at most the expected fill, or at
-- most 2047 above it where the fill is over 2^53.
pub quoted_minimum :
    (amount base quote : ℕ) (fees : Fees) (slippage : F64)
    → let sold = quote_sell amount base quote fees slippage in
      let bought = quote_buy_exact_quote_in amount base quote fees slippage in
      (sold.min_amount_out ≤ sold.amount_out + slack sold.amount_out)
      × (bought.min_amount_out ≤ bought.amount_out + slack bought.amount_out)
unfolding quote_sell quote_buy_exact_quote_in
quoted_minimum amount base quote fees slippage = (
  apply_slippage_bound (quote_sell amount base quote fees slippage).amount_out slippage
      (sold-IsU64 amount base quote fees slippage),
  apply_slippage_bound (quote_buy_exact_quote_in amount base quote fees slippage).amount_out
      slippage (bought-IsU64 amount base quote fees slippage),
)

-- For every slippage, NaN and out-of-range values included, the cap of a quote for an exact base
-- amount is not below its total, where that is at most 2^53.
pub quoted_maximum :
    (y base quote : ℕ) (fees : Fees) (slippage : F64) (q : BuyExactOutQuote)
    → quote_buy_exact_base_out y base quote fees slippage ≡ some q
    → q.total_quote_in ≤ 2 ^ 53
    → q.total_quote_in ≤ q.max_quote_in
quoted_maximum y base quote fees slippage q e exact =
    quote_buy_exact_base_out-max-ge Binary64-IsIeee y base quote fees slippage q e exact

-- The whole of an amount up to 2^53 is the amount.
pub whole_portion :
    (amount : ℕ) → amount ≤ 2 ^ 53 → to_u64 (mul binary64.one_f (of_u64 amount)) ≡ amount
whole_portion amount h =
    let laws = Binary64-IsIeee in
    let one = (laws.num_of_le binary64.zero_f binary64.one_f laws.zero_le_one).1 in
    let least = laws.to_u64_mono _ _ (
      laws.mul_ge amount 1 binary64.one_f h (omega arith) one
        (laws.one_le_of_u64 1 (omega arith))) in
    let most =
      laws.to_u64_mono _ _
        (laws.mul_le amount binary64.one_f (omega (arith, h)) laws.zero_le_one one) in
    rw (f64-mul_comm binary64.one_f (of_u64 amount)) (
      le_antisymm (rw (laws.of_u64_exact amount h) at most)
        (rw (laws.of_u64_exact amount h) at least))
