-- ===== src/Client/Send/Calls.antt =====
-- The methods of src/client.rs that sign: which transactions they deliver, and with what result.
use pump_swap_sdk.Prelude.{ℕ, Bool}
use pump_swap_sdk.Prelude.Outcome.{Result}
use pump_swap_sdk.State.Pool.{PoolInfo}
use pump_swap_sdk.Math.Float.{Float}
use pump_swap_sdk.Solana.{Solana}
use pump_swap_sdk.Client.Chain.{Found, GetAccounts}
use pump_swap_sdk.Client.Balance.{BalanceAnswer}
use pump_swap_sdk.Client.Trade.{Randomness}
use pump_swap_sdk.Client.Send.{Node, Sent, Delivery, send, simulate}
use pump_swap_sdk.Client.Send.Trades
use pump_swap_sdk.Client.Send.Trades.{price, compute_budget, sell_floor, buy_floor}
use pump_swap_sdk.Client.Send.Liquidity
use pump_swap_sdk.Client.Send.Liquidity.{create_wsol_pool_ixs, deposit_ixs, withdraw_ixs}

-- A call of a method that signs, with its arguments but the payer, and the answers of the reads that
-- it begins with.
pub data Call (F : Type 0) : Type 0 where
  simulate_sell : GetAccounts → GetAccounts → PoolInfo → ℕ → Randomness → Call F
  simulate_buy : GetAccounts → GetAccounts → PoolInfo → ℕ → Randomness → Call F
  simulate_buy_exact_quote_in : ℕ → ℕ → PoolInfo → Randomness → Call F
  create_wsol_pool : ℕ → ℕ → ℕ → ℕ → Call F
  create_wsol_pool_with_options : ℕ → ℕ → ℕ → ℕ → ℕ → ℕ → Bool → Bool → Call F
  withdraw_from_wsol_pool : (ℕ → BalanceAnswer F) → ℕ → ℕ → F → ℕ → ℕ → Call F
  deposit_into_wsol_pool : PoolInfo → ℕ → ℕ → ℕ → Call F
  buy : GetAccounts → GetAccounts → ℕ → PoolInfo → Randomness → Call F
  buy_exact_quote_in : ℕ → ℕ → PoolInfo → Randomness → Call F
  sell : GetAccounts → GetAccounts → ℕ → PoolInfo → Randomness → Call F
  claim_cashback : ℕ → ℕ → Call F
  withdraw_creator_fees : (ℕ → Result Found) → GetAccounts → ℕ → Call F

module _ ⦃chain : Solana⦄ {F : Type 0} ⦃d : Float F⦄ where
  unfoldable pub perform : Node → ℕ → Call F → Sent
  perform node payer (simulate_sell first second pool amount random) =
      Trades.simulate_sell F node first second pool amount payer random
  perform node payer (simulate_buy first second pool amount random) =
      Trades.simulate_buy F node first second pool amount payer random
  perform node payer (simulate_buy_exact_quote_in spend least pool random) =
      Trades.simulate_buy_exact_quote_in node spend least pool payer random
  perform node payer (create_wsol_pool base quote coin_creator mint) =
      Liquidity.create_wsol_pool node base quote coin_creator mint payer
  perform node payer
        (create_wsol_pool_with_options index base quote coin_creator mint program mayhem cashback) =
      Liquidity.create_wsol_pool_with_options node index base quote coin_creator mint program mayhem
        cashback payer
  perform node payer (withdraw_from_wsol_pool get pool mint percent base quote) =
      Liquidity.withdraw_from_wsol_pool node get pool mint payer percent base quote
  perform node payer (deposit_into_wsol_pool pool lp_out base quote) =
      Liquidity.deposit_into_wsol_pool node pool payer lp_out base quote
  perform node payer (buy first second amount pool random) =
      Trades.buy F node first second amount pool payer random
  perform node payer (buy_exact_quote_in spend least pool random) =
      Trades.buy_exact_quote_in node spend least pool payer random
  perform node payer (sell first second amount pool random) =
      Trades.sell F node first second amount pool payer random
  perform node payer (claim_cashback mint program) = Trades.claim_cashback node mint program payer
  perform node payer (withdraw_creator_fees get_account get mint) =
      Trades.withdraw_creator_fees node get_account get payer mint

-- Whether a call simulates its transaction or sends it.
abbrev pub delivery_of : {F : Type 0} → Call F → Delivery
delivery_of (simulate_sell first second pool amount random) = simulate
delivery_of (simulate_buy first second pool amount random) = simulate
delivery_of (simulate_buy_exact_quote_in spend least pool random) = simulate
delivery_of _ = send
