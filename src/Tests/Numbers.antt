-- ===== src/Tests/Numbers.antt =====
-- Concrete runs of src/math.rs, of the fees of src/state.rs, and of the Jito sender of src/util.rs.
use pump_swap_sdk.Prelude.{
  ℕ, ◌+◌, ◌-◌, ◌*◌, ◌%◌, ◌≤◌, ◌≡◌, refl, ◌↔◌, inl, min, true, length, List, [], ◌∷◌, some, saturate,
  div_ceil, mul_u128, add_u128, arith,
}
use pump_swap_sdk.Prelude.Outcome.{Result, ok, err, no_endpoints}
use pump_swap_sdk.State.Fees.{
  Fees, FeeTier, FeeConfig, fee_on, total_bps, tier_for_market_cap, fees_for_pool,
}
use pump_swap_sdk.State.Fees.Rounding.{IsSchedule, fee_on_rounding}
use pump_swap_sdk.State.Fees.Ladder.{fees_for_pool-reached, tier_for_market_cap_lem, Picks}
use pump_swap_sdk.Math.Binary64.{F64, units, nearest}
use pump_swap_sdk.Math.Binary64.Arithmetic
use pump_swap_sdk.Math.Binary64.Arithmetic.{
  binary64, one_unit, to_u64, of_u64, max, floor, ceil, mul, add, lt, minus, times, plus, down, up,
}
use pump_swap_sdk.Math.Binary64.Bounds.{slack, quoted_minimum, quoted_maximum}
use pump_swap_sdk.Math.Curve.{constant_product_out, constant_product_in}
use pump_swap_sdk.Math.Curve.Bounds.{constant_product_out_keeps_iff}
use pump_swap_sdk.Math.Curve.Inverse.{constant_product_in_galois, constant_product_out_round_trip}
use pump_swap_sdk.Math.Quote.{
  BuyExactOutQuote, charged_amount, raise_by_slippage, quote_sell, quote_buy_exact_quote_in,
  quote_buy_exact_base_out, apply_slippage,
}
use pump_swap_sdk.Math.Quote.Sell.{quote_sell_lem}
use pump_swap_sdk.Math.Quote.Buy.{quote_buy_exact_quote_in_lem, quote_buy_exact_base_out_lem}
use pump_swap_sdk.Util.Jito.{JitoPool, entry, reserve, Attempt, send_bundle_with_retry}
use pump_swap_sdk.Util.Jito.Cooldown.{reserve-run_lem}
use pump_swap_sdk.Util.Jito.Retry.{Ends, Awakes, answers, send_bundle_with_retry_lem}

-- 20, 5 and 5 basis points
abbrev usual_fees : Fees
usual_fees = record { lp_fee_bps = 20; protocol_fee_bps = 5; creator_fee_bps = 5 }

usual_fees-IsSchedule : IsSchedule usual_fees
usual_fees-IsSchedule = record { all_lp = omega arith }

abbrev high_fees : Fees
high_fees = record { lp_fee_bps = 2; protocol_fee_bps = 93; creator_fee_bps = 30 }

abbrev low_tier : FeeTier
low_tier = record { market_cap_lamports_threshold = 1_000; fees = high_fees }

abbrev high_tier : FeeTier
high_tier = record { market_cap_lamports_threshold = 5_000; fees = usual_fees }

abbrev config : FeeConfig
config = record {
  bump = 255;
  admin = 7;
  flat_fees = usual_fees;
  fee_tiers = low_tier ∷ high_tier ∷ [];
  stable_fee_tiers = [];
}

-- half a percent
abbrev slippage : F64
slippage = binary64.literal 5 1_000

out_run : constant_product_out 1_000 10_000 20_000 ≡ 1_818
unfolding constant_product_out mul_u128 add_u128
out_run = refl

in_run : constant_product_in 1_818 10_000 20_000 ≡ some 1_000
unfolding constant_product_in mul_u128
in_run = refl

fee_run : fee_on usual_fees 1_001 ≡ 5
unfolding fee_on mul_u128
fee_run = refl

constant_product_in_galois_example :
    (1_818 ≤ constant_product_out 999 10_000 20_000) ↔ (1_000 ≤ 999)
constant_product_in_galois_example =
    constant_product_in_galois 1_818 10_000 20_000 1_000 (omega arith) (omega arith) (omega arith)
      (omega arith) in_run (omega arith) 999 (omega arith)

constant_product_out_keeps_iff_example :
    ((1_818 ≤ 20_000) × (10_000 * 20_000 ≤ (10_000 + 1_000) * (20_000 - 1_818)))
    ↔ (1_818 ≤ constant_product_out 1_000 10_000 20_000)
constant_product_out_keeps_iff_example =
    constant_product_out_keeps_iff 1_000 10_000 20_000 1_818 (omega arith) (omega arith)
      (omega arith) (omega arith)

constant_product_out_round_trip_example :
    let y = constant_product_out 1_000 10_000 20_000 in
    constant_product_out y (20_000 - y) (10_000 + 1_000) ≤ 1_000
constant_product_out_round_trip_example =
    constant_product_out_round_trip 1_000 10_000 20_000 (omega arith) (omega arith)

quote_buy_exact_quote_in_lem_example :
    let q = quote_buy_exact_quote_in 1_000_000 50_000_000 30_000_000 usual_fees slippage in
    let curve_in = 1_000_000 - q.fee - 1 in
    (curve_in ≤ charged_amount 1_000_000 usual_fees)
    × (q.amount_out ≤ 50_000_000)
    × (30_000_000 * 50_000_000 ≤ (30_000_000 + curve_in) * (50_000_000 - q.amount_out))
quote_buy_exact_quote_in_lem_example =
    quote_buy_exact_quote_in_lem 1_000_000 50_000_000 30_000_000 usual_fees slippage (omega arith)
      (omega arith) (omega arith) (omega arith) usual_fees-IsSchedule

abbrev exact_out : BuyExactOutQuote
exact_out = record {
  quote_amount_in = 1_000;
  fee = 4;
  total_quote_in = 1_004;
  max_quote_in = 1_010;
}

exact_out-eq : quote_buy_exact_base_out 1_818 20_000 10_000 usual_fees slippage ≡ some exact_out
unfolding quote_buy_exact_base_out constant_product_in fee_on raise_by_slippage mul_u128 to_u64 max
    floor mul of_u64 lt add minus nearest one_unit units times down ceil up Arithmetic.min plus
exact_out-eq = refl

quote_buy_exact_base_out_lem_example :
    ((1_818 ≤ constant_product_out 999 10_000 20_000) ↔ (1_000 ≤ 999))
    × (4 ≡ fee_on usual_fees 1_000)
    × (1_004 ≡ saturate (1_000 + 4))
quote_buy_exact_base_out_lem_example =
    quote_buy_exact_base_out_lem 1_818 20_000 10_000 999 usual_fees slippage exact_out (omega arith)
      (omega arith) (omega arith) (omega arith) exact_out-eq (omega arith) (omega arith)

quote_sell_lem_example :
    let q = quote_sell 1_000 10_000 20_000 usual_fees slippage in
    let single = div_ceil (q.gross_amount_out * total_bps usual_fees) 10_000 in
    (q.gross_amount_out ≤ 20_000)
    × (10_000 * 20_000 ≤ (10_000 + 1_000) * (20_000 - q.gross_amount_out))
    × (single ≤ q.fee)
    × (q.fee ≤ single + 2)
    × (q.amount_out + min q.fee q.gross_amount_out ≡ q.gross_amount_out)
quote_sell_lem_example =
    quote_sell_lem 1_000 10_000 20_000 usual_fees slippage (omega arith) (omega arith) (omega arith)
      (omega arith) usual_fees-IsSchedule

fee_on_rounding_example :
    let single = div_ceil (1_001 * total_bps usual_fees) 10_000 in
    (single ≤ fee_on usual_fees 1_001) × (fee_on usual_fees 1_001 ≤ single + 2)
fee_on_rounding_example = fee_on_rounding usual_fees 1_001 (omega arith) usual_fees-IsSchedule

fees_for_pool-reached_example : fees_for_pool config true 4_999 9 ≡ high_fees
fees_for_pool-reached_example =
    fees_for_pool-reached config 4_999 9 low_tier
      ([], high_tier ∷ [], refl, omega arith, (omega arith, tt))

tier_for_market_cap_lem_example :
    Picks config.fee_tiers 4_999 (tier_for_market_cap config.fee_tiers 4_999)
tier_for_market_cap_lem_example = tier_for_market_cap_lem config.fee_tiers 4_999

abbrev jito : JitoPool
jito = record { clients = 1 ∷ 2 ∷ []; last = 0 ∷ 0 ∷ []; interval = 100; rr = 0 }

reserve-run_lem_example : 50 + 100 ≤ 160
unfolding reserve
reserve-run_lem_example =
    reserve-run_lem jito 0 50 160 (record { slot = 1; now = 60 } ∷ []) (omega arith) refl refl

abbrev busy_jito : JitoPool
busy_jito = record { clients = 1 ∷ []; last = 150 ∷ []; interval = 100; rr = 0 }

-- Each call is served on its first pass, and refuses the bundle.
abbrev refusing : ℕ → Attempt
refusing n = record {
  nows = λ pool. entry pool.last (pool.rr % length pool.clients) ∷ [];
  answer = λ client texts. err no_endpoints;
}

abbrev encoded : ℕ → Result (List ℕ)
encoded tx = ok (tx ∷ [])

abbrev plain : List ℕ → List ℕ
plain bytes = bytes

refusing-Awakes : Awakes refusing
refusing-Awakes n pool = inl (omega arith)

send_bundle_with_retry_lem_example :
    let run = send_bundle_with_retry encoded plain refusing (5 ∷ []) jito 3 in
    Ends (answers encoded plain refusing (5 ∷ [])) 3 1 run.1 run.2
send_bundle_with_retry_lem_example =
    send_bundle_with_retry_lem encoded plain refusing (5 ∷ []) jito 3 refusing-Awakes (omega arith)

-- Above 2^53 the minimum can be over the amount, which no fill reaches.
minimum_over_amount :
    apply_slippage 9_007_199_254_740_995 (binary64.literal 0 1) ≡ 9_007_199_254_740_996
unfolding apply_slippage to_u64 max floor mul of_u64 lt add minus nearest one_unit units times down
minimum_over_amount = refl

quoted_minimum_example :
    let sold = quote_sell 1_000 10_000 20_000 usual_fees slippage in
    let bought = quote_buy_exact_quote_in 1_000 10_000 20_000 usual_fees slippage in
    (sold.min_amount_out ≤ sold.amount_out + slack sold.amount_out)
    × (bought.min_amount_out ≤ bought.amount_out + slack bought.amount_out)
quoted_minimum_example = quoted_minimum 1_000 10_000 20_000 usual_fees slippage

quoted_maximum_example : 1_004 ≤ exact_out.max_quote_in
quoted_maximum_example =
    quoted_maximum 1_818 20_000 10_000 usual_fees slippage exact_out exact_out-eq (omega arith)
