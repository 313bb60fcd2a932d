-- ===== src/Client/Chain/Store.antt =====
-- The quotes of src/client.rs against a fixed store of accounts, and the quote that they stand for.
use pump_swap_sdk.Prelude.{ℕ, ◌≡◌, Bool-cases, inl, inr, List, some, map, if◌then◌else◌}
use pump_swap_sdk.Prelude.Outcome.{Result, ok, err, fees_not_quotable}
use pump_swap_sdk.State.Pool.{PoolInfo}
use pump_swap_sdk.State.Pool
use pump_swap_sdk.State.Fees.{FeeConfig}
use pump_swap_sdk.State.Fees
use pump_swap_sdk.Math.Float.{Float}
use pump_swap_sdk.Math.Quote.{SwapQuote, can_quote_fees, token_buy_quote, token_sell_quote}
use pump_swap_sdk.Solana.{Solana}
use pump_swap_sdk.Util.Pda.{fee_config_pda}
use pump_swap_sdk.Client.Chain.{
  Found, GetAccounts, token_account_amount, mint_supply, fees_from_state, fetch_pool_snapshot,
  fetch_pool_fees, quote_token_buy, quote_token_sell,
}

-- A node that answers from one store of accounts.
abbrev pub reads : (ℕ → Found) → GetAccounts
reads store keys = ok (map store keys)

module _ ⦃chain : Solana⦄ where
  -- What a store holds of a pool: the account as it is now, the amounts of both vaults, the fee config
  -- and the supply of the base mint.
  pub record Market (store : ℕ → Found) (pool : PoolInfo) : Type 0 where
    pub pool_bytes : List ℕ
    pub base_bytes : List ℕ
    pub quote_bytes : List ℕ
    pub fee_bytes : List ℕ
    pub mint_bytes : List ℕ
    pub current : PoolInfo
    pub base : ℕ
    pub quote : ℕ
    pub config : FeeConfig
    pub supply : ℕ
    pub at_pool : store pool.pool ≡ some pool_bytes
    pub at_base : store pool.pool_base_token_account ≡ some base_bytes
    pub at_quote : store pool.pool_quote_token_account ≡ some quote_bytes
    pub at_fees : store fee_config_pda ≡ some fee_bytes
    pub at_mint : store current.base_mint ≡ some mint_bytes
    pub decoded :
        Pool.from_account_data pool.pool pool_bytes pool.base_token_program pool.quote_token_program
        ≡ ok current
    pub base_is : token_account_amount base_bytes ≡ ok base
    pub quote_is : token_account_amount quote_bytes ≡ ok quote
    pub config_is : Fees.from_account_data fee_bytes ≡ ok config
    pub supply_is : mint_supply mint_bytes ≡ ok supply

  pub snapshot_of :
      (store : ℕ → Found) (pool : PoolInfo) (m : Market store pool)
      → fetch_pool_snapshot (reads store) pool ≡ ok (m.current, (m.base, m.quote))
  unfolding fetch_pool_snapshot
  snapshot_of store pool m =
      simp (m.at_pool, m.at_base, m.at_quote, m.decoded, m.base_is, m.quote_is)

  fees_of :
      (store : ℕ → Found) (pool : PoolInfo) (m : Market store pool)
      → fetch_pool_fees (reads store) m.current m.base m.quote ≡ (
          if can_quote_fees m.current
          then ok (fees_from_state m.config m.current m.supply m.base m.quote)
          else err (fees_not_quotable m.current.pool m.current.quote_mint))
  unfolding fetch_pool_fees
  fees_of store pool m = elim (Bool-cases (can_quote_fees m.current)) [
    | inl can ↦ simp (can, m.at_fees, m.at_mint, m.config_is, m.supply_is)
    | inr cannot ↦ simp (cannot)
  ]

module _ ⦃chain : Solana⦄ {F : Type 0} ⦃d : Float F⦄ where
  -- Where a node answers both calls from one store that holds the pool's accounts: the client's quotes
  -- are the pure quotes for the pool, the reserves and the fees of the store, and an error for a pool
  -- whose fees the ladder does not cover.
  pub quotes_of_store :
      (store : ℕ → Found) (pool : PoolInfo) (amount : ℕ) (slippage : F) (m : Market store pool)
      → let fees = fees_from_state m.config m.current m.supply m.base m.quote in
        let refused : Result SwapQuote =
          err (fees_not_quotable m.current.pool m.current.quote_mint) in
        (quote_token_buy (reads store) (reads store) amount pool slippage ≡ (
          if can_quote_fees m.current
          then ok (token_buy_quote amount (m.base, m.quote) m.current fees slippage)
          else refused))
        × (quote_token_sell (reads store) (reads store) amount pool slippage ≡ (
            if can_quote_fees m.current
            then ok (token_sell_quote amount (m.base, m.quote) m.current fees slippage)
            else refused))
  unfolding quote_token_buy quote_token_sell
  quotes_of_store store pool amount slippage m =
      let seen = snapshot_of store pool m in
      let fetched = fees_of store pool m in
      elim (Bool-cases (can_quote_fees m.current)) [
        | inl can ↦ (simp (seen, fetched, can), simp (seen, fetched, can))
        | inr cannot ↦ (simp (seen, fetched, cannot), simp (seen, fetched, cannot))
      ]
