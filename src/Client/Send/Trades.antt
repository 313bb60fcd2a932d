-- ===== src/Client/Send/Trades.antt =====
-- The methods of src/client.rs that trade, and those that claim or withdraw fees.
use pump_swap_sdk.Prelude.{ℕ, true, false, List, [], ◌∷◌, ◌++◌}
use pump_swap_sdk.Prelude.Outcome.{Result, ok, ◌>>=◌}
use pump_swap_sdk.State.Pool.{PoolInfo, effective_reserves}
use pump_swap_sdk.State.Fees.{Fees}
use pump_swap_sdk.Math.Float.{Float}
use pump_swap_sdk.Math.Quote.{quote_sell, quote_buy_exact_quote_in}
use pump_swap_sdk.Solana.{Solana, Instruction}
use pump_swap_sdk.Instruction.Volume.{make_claim_cashback_instruction}
use pump_swap_sdk.Client.Chain.{Found, GetAccounts, fetch_pool_snapshot, fetch_pool_fees}
use pump_swap_sdk.Client.Trade.{
  Randomness, build_buy_ixs, build_buy_exact_quote_in_ixs, build_sell_ixs,
}
use pump_swap_sdk.Client.Creator.{build_creator_fee_withdraw_ixs}
use pump_swap_sdk.Client.Send.{Node, Sent, send, simulate, submit}

-- The pool as it is, its fees, and the reserves to price against.
pub record Priced : Type 0 where
  pub pool : PoolInfo
  pub fees : Fees
  pub base : ℕ
  pub quote : ℕ

module _ ⦃chain : Solana⦄ where
  open chain use {set_compute_unit_limit, set_compute_unit_price}

  -- The reads that `buy`, `sell` and their simulations begin with.
  unfoldable pub price : GetAccounts → GetAccounts → PoolInfo → Result Priced
  price first second pool_info = do
    (pool, reserves) ← fetch_pool_snapshot first pool_info
    fees ← fetch_pool_fees second pool reserves.0 reserves.1
    let effective = effective_reserves pool reserves.0 reserves.1
    ok (record { pool = pool; fees = fees; base = effective.0; quote = effective.1 })

  abbrev pub compute_budget : ℕ → ℕ → List Instruction
  compute_budget limit unit_price =
      set_compute_unit_limit limit ∷ set_compute_unit_price unit_price ∷ []

  unfoldable pub buy_exact_quote_in : Node → ℕ → ℕ → PoolInfo → ℕ → Randomness → Sent
  buy_exact_quote_in node spendable_quote_in min_base_amount_out pool_info payer random =
      submit node send payer (do
        built ←
            build_buy_exact_quote_in_ixs spendable_quote_in min_base_amount_out true pool_info payer
              false random
        ok (compute_budget 1_000_000 100_000 ++ built))

  unfoldable pub simulate_buy_exact_quote_in : Node → ℕ → ℕ → PoolInfo → ℕ → Randomness → Sent
  simulate_buy_exact_quote_in node spendable_quote_in min_base_amount_out pool_info payer random =
      submit node simulate payer (
        build_buy_exact_quote_in_ixs spendable_quote_in min_base_amount_out true pool_info payer
          true random)

  unfoldable pub claim_cashback : Node → ℕ → ℕ → ℕ → Sent
  claim_cashback node quote_mint quote_token_program payer =
      submit node send payer
        (do ix ← make_claim_cashback_instruction payer quote_mint quote_token_program; ok (ix ∷ []))

  unfoldable pub withdraw_creator_fees : Node → (ℕ → Result Found) → GetAccounts → ℕ → ℕ → Sent
  withdraw_creator_fees node get_account get_multiple_accounts admin token_mint =
      submit node send admin (do
        built ← build_creator_fee_withdraw_ixs get_account get_multiple_accounts admin token_mint
        ok (compute_budget 500_000 50_000 ++ built))

module _ ⦃chain : Solana⦄ (F : Type 0) ⦃d : Float F⦄ where
  -- `DEFAULT_SLIPPAGE`, 0.005
  abbrev pub default_slippage : F
  default_slippage = d.literal 5 1_000

  abbrev pub sell_floor : ℕ → Priced → ℕ
  sell_floor amount_in p =
      (quote_sell amount_in p.base p.quote p.fees default_slippage).min_amount_out

  abbrev pub buy_floor : ℕ → Priced → ℕ
  buy_floor amount_in p =
      (quote_buy_exact_quote_in amount_in p.base p.quote p.fees default_slippage).min_amount_out

  unfoldable pub simulate_sell :
      Node → GetAccounts → GetAccounts → PoolInfo → ℕ → ℕ → Randomness → Sent
  simulate_sell node first second pool_info amount_in payer random = submit node simulate payer (do
    p ← price first second pool_info
    build_sell_ixs amount_in (sell_floor amount_in p) p.pool payer true random)

  unfoldable pub simulate_buy :
      Node → GetAccounts → GetAccounts → PoolInfo → ℕ → ℕ → Randomness → Sent
  simulate_buy node first second pool_info amount_in payer random = submit node simulate payer (do
    p ← price first second pool_info
    build_buy_ixs (buy_floor amount_in p) amount_in true p.pool payer true random)

  unfoldable pub buy : Node → GetAccounts → GetAccounts → ℕ → PoolInfo → ℕ → Randomness → Sent
  buy node first second amount_in pool_info payer random = submit node send payer (do
    p ← price first second pool_info
    built ← build_buy_ixs (buy_floor amount_in p) amount_in true p.pool payer false random
    ok (compute_budget 1_000_000 100_000 ++ built))

  unfoldable pub sell : Node → GetAccounts → GetAccounts → ℕ → PoolInfo → ℕ → Randomness → Sent
  sell node first second amount_in pool_info payer random = submit node send payer (do
    p ← price first second pool_info
    built ← build_sell_ixs amount_in (sell_floor amount_in p) p.pool payer true random
    ok (compute_budget 1_000_000 100_000 ++ built))
