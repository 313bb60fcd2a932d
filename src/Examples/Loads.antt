-- ===== src/Examples/Loads.antt =====
-- examples/load_pool.rs and examples/simulate_buy.rs.
use pump_swap_sdk.Prelude.{ℕ, ◌/◌, List, []}
use pump_swap_sdk.Prelude.Outcome.{Result, ok, err, ◌>>=◌, ok_or, not_parsed, panicked}
use pump_swap_sdk.State.Pool.{PoolInfo}
use pump_swap_sdk.Math.Float.{Float}
use pump_swap_sdk.Solana.{Solana}
use pump_swap_sdk.Util.Load.{GetOwners, load_pool}
use pump_swap_sdk.Client.Chain.{GetAccounts}
use pump_swap_sdk.Client.Balance.{BalanceAnswer, fetch_pool_reserves}
use pump_swap_sdk.Client.Trade.{Randomness}
use pump_swap_sdk.Client.Send.{Node, Sent}
use pump_swap_sdk.Client.Send.Trades
use pump_swap_sdk.Examples.Settings.{
  Variable, Parsers, required, required_key, lamports_or, lamports_per_sol,
}

-- The node's answers to the reads of one pool account and its mints.
pub record Loading : Type 0 where
  pub get_account_data : ℕ → Result (List ℕ)
  pub get_owners : GetOwners

module _ ⦃chain : Solana⦄ where
  -- `main` of load_pool.rs: the pool and its reserves, which it prints.
  unfoldable pub show_pool :
      {F K : Type 0}
      → Parsers F K
      → Loading
      → (ℕ → BalanceAnswer F)
      → (ℕ → BalanceAnswer F)
      → Variable
      → Variable
      → Result (PoolInfo × (ℕ × ℕ))
  show_pool parsers load first second rpc_url pool = do
    url ← required rpc_url
    key ← required_key parsers pool
    pool_info ← load_pool load.get_account_data load.get_owners key
    reserves ← fetch_pool_reserves first second pool_info
    ok (pool_info, reserves)

module _ ⦃chain : Solana⦄ {F : Type 0} ⦃d : Float F⦄ where
  -- What simulate_buy.rs reads before it calls the client: the pool, the amount and the wallet.
  -- `Keypair::from_base58_string` panics on a text that is no key pair.
  unfoldable pub buy_settings :
      {K : Type 0}
      → Parsers F K
      → Loading
      → Variable
      → Variable
      → Variable
      → Variable
      → Result (PoolInfo × (ℕ × ℕ))
  buy_settings parsers load rpc_url pool keypair amount_sol = do
    url ← required rpc_url
    pool_text ← required pool
    secret ← required keypair
    amount ← lamports_or parsers (lamports_per_sol / 1_000) amount_sol
    key ← ok_or not_parsed (parsers.to_pubkey pool_text)
    pool_info ← load_pool load.get_account_data load.get_owners key
    payer ← ok_or panicked (parsers.from_base58_string secret)
    ok (pool_info, (amount, parsers.pubkey_of payer))

  -- `main` of simulate_buy.rs
  unfoldable pub simulate_buy :
      {K : Type 0}
      → Parsers F K
      → Loading
      → Node
      → GetAccounts
      → GetAccounts
      → Randomness
      → Variable
      → Variable
      → Variable
      → Variable
      → Sent
  unfolding buy_settings
  simulate_buy parsers load node first second random rpc_url pool keypair amount_sol =
      elim (buy_settings parsers load rpc_url pool keypair amount_sol) [
        | err e ↦ record { delivered = []; result = err e }
        | ok (pool_info, (amount, payer)) ↦
            Trades.simulate_buy F node first second pool_info amount payer random
      ]
