-- ===== src/Math/Quote/Buy.antt =====
-- `quote_buy_exact_quote_in` and `quote_buy_exact_base_out` of src/math.rs: the budget of a buy.
use native.Mathlib.Nat.{div-mul-le_self, lt-div-mul-add, div-le_of_le-mul}
use pump_swap_sdk.Prelude.{
  saturate, ℕ, ◌+◌, ◌-◌, ◌*◌, ◌/◌, ◌^◌, ◌≤◌, ◌<◌, ◌≡◌, ◌↔◌, inl, inr, none, some, IsU64, u64_max,
  saturating_add, mul_u128-eq, add_u128-eq, Option-cases, arith,
}
use pump_swap_sdk.State.Fees.{Fees, fee_on, total_bps}
use pump_swap_sdk.State.Fees.Rounding.{
  IsSchedule, fee_on_rounding, total_bps-eq, saturate-eq, div_ceil_bounds,
}
use pump_swap_sdk.Math.Float.{Float, IsIeee}
use pump_swap_sdk.Math.Curve.{constant_product_out, constant_product_in}
use pump_swap_sdk.Math.Curve.Bounds.{constant_product_out_invariant}
use pump_swap_sdk.Math.Curve.Inverse.{constant_product_in_cases, constant_product_in_galois}
use pump_swap_sdk.Math.Quote.Slippage.{le-raise_by_slippage}
use pump_swap_sdk.Math.Quote.{
  BuyExactOutQuote, charged_amount, quote_buy_exact_quote_in, quote_buy_exact_base_out,
  raise_by_slippage,
}

charged-le : (n total : ℕ) → n * 10_000 / (10_000 + total) ≤ n
charged-le n total = div-le_of_le-mul (10_000 + total) (omega arith)

charged_amount-eq :
    (n : ℕ) (fees : Fees)
    → IsU64 n
    → IsSchedule fees
    → charged_amount n fees ≡ n * 10_000 / (10_000 + total_bps fees)
unfolding charged_amount
charged_amount-eq n fees h s =
    let total = total_bps fees in
    let denominator : 0 < 10_000 + total = omega arith in
    let small : n * 10_000 / (10_000 + total) ≤ u64_max = omega (arith, charged-le n total) in
    rw (
      mul_u128-eq n 10_000 h (omega arith),
      add_u128-eq 10_000 total (omega arith) (omega (arith, total_bps-eq fees s, s.all_lp)),
      saturate-eq (n * 10_000 / (10_000 + total)) small,
    )

-- For a `u64` spend and a schedule of at most 100%: the amount that fees are charged on and its fee together miss the
-- spend by at most 1 below and 2 above.
pub charged_amount_budget :
    (n : ℕ) (fees : Fees)
    → IsU64 n
    → IsSchedule fees
    → let charged = charged_amount n fees in
      let fee = fee_on fees charged in (n ≤ charged + fee + 1) × (charged + fee ≤ n + 2)
charged_amount_budget n fees h s =
    let total = total_bps fees in
    let c = n * 10_000 / (10_000 + total) in
    let below : c * (10_000 + total) ≤ n * 10_000 = div-mul-le_self (n * 10_000) (10_000 + total) in
    let above : n * 10_000 < c * (10_000 + total) + (10_000 + total) =
      lt-div-mul-add (omega arith) in
    let rounding = fee_on_rounding fees c (omega (arith, charged-le n total)) s in
    let exact = div_ceil_bounds (c * total) in
    let most : total ≤ 10_000 = omega (arith, total_bps-eq fees s, s.all_lp) in
    rw (charged_amount-eq n fees h s) (omega arith)

module _ {F : Type 0} ⦃d : Float F⦄ where
  -- For `u64` inputs, a schedule of at most 100% and a quote reserve: the curve is fed at most what
  -- fees were charged on; and the payout fits the base reserve and does not shrink the product of the
  -- reserves, even though only `curve_in` of the spend is counted.
  pub quote_buy_exact_quote_in_lem :
      (n base quote : ℕ) (fees : Fees) (slippage : F)
      → IsU64 n
      → IsU64 base
      → IsU64 quote
      → 0 < quote
      → IsSchedule fees
      → let q = quote_buy_exact_quote_in n base quote fees slippage in
        let curve_in = n - q.fee - 1 in
        (curve_in ≤ charged_amount n fees)
        × (q.amount_out ≤ base)
        × (quote * base ≤ (quote + curve_in) * (base - q.amount_out))
  unfolding quote_buy_exact_quote_in
  quote_buy_exact_quote_in_lem n base quote fees slippage hn hb hq some_there s =
      let fee = fee_on fees (charged_amount n fees) in
      let (least, most) = charged_amount_budget n fees hn s in
      let (below, keeps) =
        constant_product_out_invariant (n - fee - 1) quote base (omega arith) hq hb (omega arith) in
      (omega arith, below, keeps)

  quoted :
      (y base quote : ℕ) (fees : Fees) (slippage : F) (q : BuyExactOutQuote)
      → quote_buy_exact_base_out y base quote fees slippage ≡ some q
      → (constant_product_in y quote base ≡ some q.quote_amount_in)
        × (q.fee ≡ fee_on fees q.quote_amount_in)
        × (q.total_quote_in ≡ saturating_add q.quote_amount_in q.fee)
        × (q.max_quote_in ≡ raise_by_slippage q.total_quote_in slippage)
  unfolding quote_buy_exact_base_out
  quoted y base quote fees slippage q e = elim (Option-cases (constant_product_in y quote base)) [
    | inl missing ↦ absurd (ground arith)
    | inr (x, found) ↦ ground arith
  ]

  -- For `u64` amounts, there is no quote exactly for amounts at or beyond the base reserve.
  pub quote_buy_exact_base_out-eq-none_iff :
      (y base quote : ℕ) (fees : Fees) (slippage : F)
      → IsU64 y
      → IsU64 quote
      → (quote_buy_exact_base_out y base quote fees slippage ≡ none) ↔ (base ≤ y)
  unfolding quote_buy_exact_base_out
  quote_buy_exact_base_out-eq-none_iff y base quote fees slippage hy hq =
      let (priced, refused) = constant_product_in_cases y quote base hy hq in
      (λ e. ground arith, λ h. rw (refused h, quote_buy_exact_base_out))

  -- For `u64` amounts and a quote reserve, a quote whose price does not saturate asks for the least
  -- input that buys the amount: an input buys it exactly when it is at least that. Its fee is that of
  -- the input, and its total their saturated sum.
  pub quote_buy_exact_base_out_lem :
      (y base quote a : ℕ) (fees : Fees) (slippage : F) (q : BuyExactOutQuote)
      → IsU64 y
      → IsU64 base
      → IsU64 quote
      → 0 < quote
      → quote_buy_exact_base_out y base quote fees slippage ≡ some q
      → q.quote_amount_in < u64_max
      → IsU64 a
      → ((y ≤ constant_product_out a quote base) ↔ (q.quote_amount_in ≤ a))
        × (q.fee ≡ fee_on fees q.quote_amount_in)
        × (q.total_quote_in ≡ saturate (q.quote_amount_in + q.fee))
  quote_buy_exact_base_out_lem y base quote a fees slippage q hy hb hq some_there e small ha =
      let (found, fee, total, cap) = quoted y base quote fees slippage q e in
      (
        constant_product_in_galois y quote base q.quote_amount_in hy hq hb some_there found small a
            ha,
        fee,
        total,
      )

  -- For IEEE 754 numbers: the cap of a quote is not below its total, where an `f64` holds that
  -- exactly.
  pub quote_buy_exact_base_out-max-ge :
      (laws : IsIeee F) (y base quote : ℕ) (fees : Fees) (slippage : F) (q : BuyExactOutQuote)
      → quote_buy_exact_base_out y base quote fees slippage ≡ some q
      → q.total_quote_in ≤ 2 ^ 53
      → q.total_quote_in ≤ q.max_quote_in
  quote_buy_exact_base_out-max-ge laws y base quote fees slippage q e exact =
      let (found, fee, total, cap) = quoted y base quote fees slippage q e in
      rw cap (le-raise_by_slippage laws q.total_quote_in slippage exact)
