-- ===== src/Client/Chain/Fetch.antt =====
-- The single-account reads of src/client.rs.
use pump_swap_sdk.Prelude.{ℕ, List, [], ◌∷◌, Option, none, some}
use pump_swap_sdk.Prelude.Outcome.{Result, ok, ◌>>=◌}
use pump_swap_sdk.Constants.{global_config, global_volume_accumulator}
use pump_swap_sdk.State.Fees.{FeeConfig}
use pump_swap_sdk.State.Fees
use pump_swap_sdk.State.Config.{GlobalConfig}
use pump_swap_sdk.State.Config
use pump_swap_sdk.State.Volume.{
  UserVolumeAccumulator, GlobalVolumeAccumulator, user_from_account_data, global_from_account_data,
}
use pump_swap_sdk.Solana.{Solana}
use pump_swap_sdk.Util.Pda.{fee_config_pda, find_user_vol_accumulator}
use pump_swap_sdk.State.Pool.{PoolInfo}
use pump_swap_sdk.Util.Load.{GetOwners}
use pump_swap_sdk.Util.Load
use pump_swap_sdk.Client.Chain.{Found, GetAccounts}

-- `get_account_data`: a missing account is an error of the call.
abbrev pub GetData : Type 0
GetData = ℕ → Result (List ℕ)

-- `.into_iter().next().flatten()`
abbrev pub first_account : List Found → Found
first_account [] = none
first_account (found ∷ rest) = found

-- `.map(…).transpose()`
abbrev pub decode_found : {A : Type 0} → (List ℕ → Result A) → Found → Result (Option A)
decode_found decode none = ok none
decode_found decode (some bytes) = decode bytes >>= λ a. ok (some a)

unfoldable pub fetch_global_config : GetData → Result GlobalConfig
fetch_global_config get_account_data = do
  bytes ← get_account_data global_config
  Config.from_account_data bytes

unfoldable pub fetch_global_volume_accumulator : GetData → Result GlobalVolumeAccumulator
fetch_global_volume_accumulator get_account_data = do
  bytes ← get_account_data global_volume_accumulator
  global_from_account_data bytes

module _ ⦃chain : Solana⦄ where
  unfoldable pub fetch_fee_config : GetData → Result FeeConfig
  fetch_fee_config get_account_data = do
    bytes ← get_account_data fee_config_pda
    Fees.from_account_data bytes

  unfoldable pub fetch_user_volume_accumulator :
      GetAccounts → ℕ → Result (Option UserVolumeAccumulator)
  fetch_user_volume_accumulator get_multiple_accounts user = do
    accounts ← get_multiple_accounts (find_user_vol_accumulator user ∷ [])
    decode_found user_from_account_data (first_account accounts)

  -- `PumpSwapClient::load_pool`
  abbrev pub load_pool : GetData → GetOwners → ℕ → Result PoolInfo
  load_pool get_account_data get_owners pool_pubkey =
      Load.load_pool get_account_data get_owners pool_pubkey
