-- ===== src/Client/Chain.antt =====
-- The reads of src/client.rs. An answer of the RPC node is a function argument, one for each call,
-- since the chain may change between two calls.
pub mod Pricing
pub mod Fetch
pub mod Store
use pump_swap_sdk.Prelude.{
  ℕ, ◌+◌, Bool, true, false, not, List, [], ◌∷◌, Option, none, some, map, if◌then◌else◌, length,
  get_elem?, get_range,
}
use pump_swap_sdk.Prelude.Bytes.{from_le}
use pump_swap_sdk.Prelude.Outcome.{
  Result, ok, err, ◌>>=◌, ok_or, account_not_found, token_account_too_short, mint_account_too_short,
  fees_not_quotable, no_sharing_config, sharing_not_active,
}
use pump_swap_sdk.Constants.{global_config}
use pump_swap_sdk.State.Pool.{PoolInfo, effective_reserves}
use pump_swap_sdk.State.Pool
use pump_swap_sdk.State.Fees.{Fees, FeeConfig, fees_for_pool}
use pump_swap_sdk.State.Fees
use pump_swap_sdk.State.Config.{GlobalConfig}
use pump_swap_sdk.State.Config
use pump_swap_sdk.State.Sharing.{SharingConfig, Shareholder, is_active}
use pump_swap_sdk.State.Sharing
use pump_swap_sdk.Math.Float.{Float}
use pump_swap_sdk.Math.Curve.{market_cap_lamports}
use pump_swap_sdk.Math.Quote.{
  SwapQuote, is_tiered_fee_pool, can_quote_fees, token_buy_quote, token_sell_quote,
}
use pump_swap_sdk.Solana.{Solana}
use pump_swap_sdk.Util.Pda.{fee_config_pda, sharing_config_pda}

-- The data of an account, none where there is no account.
abbrev pub Found : Type 0
Found = Option (List ℕ)

-- `get_multiple_accounts`: the answer to a list of keys.
abbrev pub GetAccounts : Type 0
GetAccounts = List ℕ → Result (List Found)

-- `accounts.get(index).and_then(|a| a.as_ref()).ok_or_else(…)`
abbrev pub account_at : List Found → ℕ → ℕ → Result (List ℕ)
account_at accounts index key = elim (get_elem? accounts index) [
  | none ↦ err (account_not_found key)
  | some found ↦ ok_or (account_not_found key) found
]

unfoldable pub token_account_amount : List ℕ → Result ℕ
token_account_amount bytes = elim (get_range bytes 64 72) [
  | none ↦ err (token_account_too_short (length bytes))
  | some word ↦ ok (from_le word)
]

unfoldable pub mint_supply : List ℕ → Result ℕ
mint_supply bytes = elim (get_range bytes 36 44) [
  | none ↦ err (mint_account_too_short (length bytes))
  | some word ↦ ok (from_le word)
]

unfoldable pub fees_from_state : FeeConfig → PoolInfo → ℕ → ℕ → ℕ → Fees
fees_from_state fee_config pool base_supply base_reserve quote_reserve =
    let is_tiered = is_tiered_fee_pool pool in
    let (base, quote) = effective_reserves pool base_reserve quote_reserve in
    let market_cap = if is_tiered then market_cap_lamports base_supply base quote else 0 in
    fees_for_pool fee_config is_tiered market_cap pool.quote_mint

unfoldable pub fetch_pool_snapshot : GetAccounts → PoolInfo → Result (PoolInfo × (ℕ × ℕ))
fetch_pool_snapshot get_multiple_accounts pool = do
  accounts ←
      get_multiple_accounts
        (pool.pool ∷ pool.pool_base_token_account ∷ pool.pool_quote_token_account ∷ [])
  pool_bytes ← account_at accounts 0 pool.pool
  current ←
      Pool.from_account_data pool.pool pool_bytes pool.base_token_program pool.quote_token_program
  base_bytes ← account_at accounts 1 pool.pool_base_token_account
  base_reserve ← token_account_amount base_bytes
  quote_bytes ← account_at accounts 2 pool.pool_quote_token_account
  quote_reserve ← token_account_amount quote_bytes
  ok (current, (base_reserve, quote_reserve))

module _ ⦃chain : Solana⦄ where
  unfoldable pub fetch_fee_state : GetAccounts → Result (GlobalConfig × FeeConfig)
  fetch_fee_state get_multiple_accounts = do
    accounts ← get_multiple_accounts (global_config ∷ fee_config_pda ∷ [])
    global_bytes ← account_at accounts 0 global_config
    fee_bytes ← account_at accounts 1 fee_config_pda
    global ← Config.from_account_data global_bytes
    fees ← Fees.from_account_data fee_bytes
    ok (global, fees)

  unfoldable pub fetch_pool_fees : GetAccounts → PoolInfo → ℕ → ℕ → Result Fees
  unfolding fees_from_state
  fetch_pool_fees get_multiple_accounts pool base_reserve quote_reserve =
      if not (can_quote_fees pool) then err (fees_not_quotable pool.pool pool.quote_mint) else do
        accounts ← get_multiple_accounts (fee_config_pda ∷ pool.base_mint ∷ [])
        fee_bytes ← account_at accounts 0 fee_config_pda
        fee_config ← Fees.from_account_data fee_bytes
        mint_bytes ← account_at accounts 1 pool.base_mint
        base_supply ← mint_supply mint_bytes
        ok (fees_from_state fee_config pool base_supply base_reserve quote_reserve)

  unfoldable pub fetch_sharing_config : (ℕ → Result Found) → ℕ → Result (Option SharingConfig)
  fetch_sharing_config get_account mint = do
    found ← get_account (sharing_config_pda mint)
    elim found [
      | none ↦ ok none
      | some bytes ↦ do config ← Sharing.from_account_data bytes; ok (some config)
    ]

  unfoldable pub active_shareholders : (ℕ → Result Found) → ℕ → Result (List ℕ)
  unfolding fetch_sharing_config
  active_shareholders get_account token_mint = do
    found ← fetch_sharing_config get_account token_mint
    config ← ok_or (no_sharing_config token_mint) found
    (if not (is_active config)
        then err (sharing_not_active token_mint)
        else ok (map (λ holder. holder.address) config.shareholders))

module _ ⦃chain : Solana⦄ {F : Type 0} ⦃d : Float F⦄ where
  -- The two calls of the RPC node come one after the other.
  unfoldable pub quote_token_buy : GetAccounts → GetAccounts → ℕ → PoolInfo → F → Result SwapQuote
  quote_token_buy first second sol_in pool slippage = do
    (current, reserves) ← fetch_pool_snapshot first pool
    fees ← fetch_pool_fees second current reserves.0 reserves.1
    ok (token_buy_quote sol_in reserves current fees slippage)

  unfoldable pub quote_token_sell : GetAccounts → GetAccounts → ℕ → PoolInfo → F → Result SwapQuote
  quote_token_sell first second tokens_in pool slippage = do
    (current, reserves) ← fetch_pool_snapshot first pool
    fees ← fetch_pool_fees second current reserves.0 reserves.1
    ok (token_sell_quote tokens_in reserves current fees slippage)
