-- ===== src/Tests/Store.antt =====
-- A store with the accounts of one pool, and the client's quotes of src/client.rs against it.
use pump_swap_sdk.Prelude.{
  ℕ, ◌≡◌, refl, List, [], ◌∷◌, ◌++◌, some, length, replicate, ◌==◌, if◌then◌else◌,
}
use pump_swap_sdk.Prelude.Bytes.{from_le}
use pump_swap_sdk.Prelude.Outcome.{Result, ok, err, fees_not_quotable}
use pump_swap_sdk.State.Pool.{PoolInfo}
use pump_swap_sdk.State.Pool.Layout.{account_bytes, info_of, from_account_data-account_bytes}
use pump_swap_sdk.State.Fees.{fee_config_discriminator}
use pump_swap_sdk.State.Fees.Layout.{fee_config_bytes, from_account_data-fee_config_bytes}
use pump_swap_sdk.Math.Quote.{SwapQuote, can_quote_fees, token_buy_quote, token_sell_quote}
use pump_swap_sdk.Math.Binary64.Arithmetic.{binary64}
use pump_swap_sdk.Util.Pda.{fee_config_pda}
use pump_swap_sdk.Client.Chain.{
  Found, token_account_amount, mint_supply, fees_from_state, quote_token_buy, quote_token_sell,
}
use pump_swap_sdk.Client.Chain.Store.{reads, Market, quotes_of_store}
use pump_swap_sdk.Tests.Accounts.{
  pool, trailing, zeros, fee_config, pool-IsPool, trailing-IsTrailing, fee_config-IsFeeConfig,
  fee_config_short,
}
use pump_swap_sdk.Tests.StandIn.{stand_in}

abbrev pub pool_data : List ℕ
pool_data = account_bytes zeros pool trailing (0 ∷ [])

-- 5000 base tokens, 400000 lamports, and a supply of 10^6
abbrev pub base_data : List ℕ
base_data = replicate 64 0 ++ (136 ∷ 19 ∷ 0 ∷ 0 ∷ 0 ∷ 0 ∷ 0 ∷ 0 ∷ [])

abbrev pub quote_data : List ℕ
quote_data = replicate 64 0 ++ (128 ∷ 26 ∷ 6 ∷ 0 ∷ 0 ∷ 0 ∷ 0 ∷ 0 ∷ [])

abbrev pub mint_data : List ℕ
mint_data = replicate 36 0 ++ (64 ∷ 66 ∷ 15 ∷ 0 ∷ 0 ∷ 0 ∷ 0 ∷ 0 ∷ [])

abbrev pub fee_data : List ℕ
fee_data = fee_config_discriminator ++ (fee_config_bytes fee_config ++ zeros)

abbrev pub store : ℕ → Found
store key =
    if key == 99
    then some pool_data
    else (if key == 14
        then some base_data
        else (if key == 15
            then some quote_data
            else (if key == 12 then some mint_data else some fee_data)))

abbrev pub known : PoolInfo
known = info_of 99 (length pool_data) pool trailing 6 6

pub at_fees : store fee_config_pda ≡ some fee_data
unfolding fee_config_pda
at_fees = refl

pub amount_of_base : token_account_amount base_data ≡ ok 5_000
unfolding token_account_amount from_le
amount_of_base = refl

pub amount_of_quote : token_account_amount quote_data ≡ ok 400_000
unfolding token_account_amount from_le
amount_of_quote = refl

pub supply_of_mint : mint_supply mint_data ≡ ok 1_000_000
unfolding mint_supply from_le
supply_of_mint = refl

abbrev pub market : Market store known
market = record {
  pool_bytes = pool_data;
  base_bytes = base_data;
  quote_bytes = quote_data;
  fee_bytes = fee_data;
  mint_bytes = mint_data;
  current = known;
  base = 5_000;
  quote = 400_000;
  config = fee_config;
  supply = 1_000_000;
  at_pool = refl;
  at_base = refl;
  at_quote = refl;
  at_fees = at_fees;
  at_mint = refl;
  decoded =
      from_account_data-account_bytes 99 zeros pool trailing (0 ∷ []) 6 6 refl pool-IsPool
        trailing-IsTrailing;
  base_is = amount_of_base;
  quote_is = amount_of_quote;
  config_is =
      from_account_data-fee_config_bytes fee_config zeros fee_config-IsFeeConfig fee_config_short;
  supply_is = supply_of_mint;
}

quotes_of_store_example :
    let fees = fees_from_state fee_config known 1_000_000 5_000 400_000 in
    let refused : Result SwapQuote = err (fees_not_quotable known.pool known.quote_mint) in
    (quote_token_buy (reads store) (reads store) 1_000 known (binary64.literal 5 1_000) ≡ (
      if can_quote_fees known
      then ok (token_buy_quote 1_000 (5_000, 400_000) known fees (binary64.literal 5 1_000))
      else refused))
    × (quote_token_sell (reads store) (reads store) 1_000 known (binary64.literal 5 1_000) ≡ (
        if can_quote_fees known
        then ok (token_sell_quote 1_000 (5_000, 400_000) known fees (binary64.literal 5 1_000))
        else refused))
quotes_of_store_example = quotes_of_store store known 1_000 (binary64.literal 5 1_000) market
