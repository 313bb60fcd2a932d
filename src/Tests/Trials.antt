-- ===== src/Tests/Trials.antt =====
-- Concrete runs of the programs of examples/ that simulate, over the stand-in for the libraries.
use pump_swap_sdk.Prelude.{◌≡◌, refl, true, List, [], none, some}
use pump_swap_sdk.Prelude.Outcome.{Result, ok}
use pump_swap_sdk.Math.Binary64.{F64}
use pump_swap_sdk.Math.Binary64.Arithmetic.{binary64}
use pump_swap_sdk.Math.Quote.{
  can_quote_fees, is_tiered_fee_pool, SwapQuote, token_buy_quote, token_sell_quote,
}
use pump_swap_sdk.Solana.{Instruction}
use pump_swap_sdk.Client.Chain.{fees_from_state, quote_token_buy, quote_token_sell}
use pump_swap_sdk.Client.Chain.Store.{reads, snapshot_of, quotes_of_store}
use pump_swap_sdk.Client.Send.{Transaction}
use pump_swap_sdk.Examples.Loads.{Loading}
use pump_swap_sdk.Examples.Simulations.{Simulation, FlowAnswers, sol_in, tokens_to_sell, flow_legs}
use pump_swap_sdk.Examples.Simulations.Flow.{RoundTrip, flow_legs-RoundTrip}
use pump_swap_sdk.Examples.Layout
use pump_swap_sdk.Tests.StandIn.{stand_in, random}
use pump_swap_sdk.Tests.Store.{store, known, market}
use pump_swap_sdk.Tests.Instructions.{opens}
use pump_swap_sdk.Tests.Programs.{get_data, get_owners, loaded}

abbrev slippage : F64
slippage = binary64.literal 1 1_000

abbrev bought : SwapQuote
bought =
    let fees = fees_from_state market.config known 1_000_000 5_000 400_000 in
    token_buy_quote sol_in (5_000, 400_000) known fees slippage

abbrev sold : SwapQuote
sold =
    let fees = fees_from_state market.config known 1_000_000 5_000 400_000 in
    token_sell_quote (tokens_to_sell bought.min_amount_out) (5_000, 400_000) known fees slippage

quotable : can_quote_fees known ≡ true
unfolding can_quote_fees is_tiered_fee_pool
quotable = refl

quoted_buy : quote_token_buy (reads store) (reads store) sol_in known slippage ≡ ok bought
quoted_buy = rw quotable at (quotes_of_store store known sol_in slippage market).0

quoted_sell :
    quote_token_sell
      (reads store)
      (reads store)
      (tokens_to_sell bought.min_amount_out)
      known
      slippage
    ≡ ok sold
quoted_sell =
    rw quotable at
      (quotes_of_store store known (tokens_to_sell bought.min_amount_out) slippage market).1

abbrev simulated : Transaction → Result Simulation
simulated tx = ok (record { failure = none; units_consumed = some 90_000; logs = some [] })

abbrev loading : Loading
loading = record { get_account_data = get_data; get_owners = get_owners }

abbrev flow_answers : FlowAnswers
flow_answers = record {
  loading = loading;
  snapshot = reads store;
  buy_accounts = reads store;
  buy_fees = reads store;
  buy_random = random;
  sell_accounts = reads store;
  sell_fees = reads store;
  sell_random = random;
  simulate_buy_leg = simulated;
  simulate_sell_leg = simulated;
}

flow_legs-RoundTrip_example :
    (buy_ixs : List Instruction) × (sell_ixs : List Instruction) × (flow_legs F64 flow_answers 99 1
      ≡ ok (buy_ixs, sell_ixs))
    × RoundTrip flow_answers 1 opens opens known bought.min_amount_out sold.min_amount_out buy_ixs
        sell_ixs
flow_legs-RoundTrip_example =
    flow_legs-RoundTrip F64 flow_answers 99 1 opens opens known known (5_000, 400_000) bought sold
      loaded (snapshot_of store known market) quoted_buy quoted_sell

abbrev layout_answers : Layout.Answers
layout_answers = record {
  loading = loading;
  snapshot = reads store;
  buy_random = random;
  simulate_buy = simulated;
  exact_random = random;
  simulate_exact = simulated;
  sell_random = random;
  simulate_sell = simulated;
}
